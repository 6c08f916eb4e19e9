-- ===== src/Bio/Ring.antt =====
-- Doubly linked lists: what stands in the links, and how an entry is taken out and put in.
use os2025_assignment.Base.{
  ℕ, ◌≡◌, ◌≢◌, ◌∙◌, sym, List, [], ◌∷◌, ◌++◌, update, update_self, update_ne,
}
use mathlib.Core.Path.{subst}

-- From `a` the links lead through the list to `c` and back.
abbrev pub Links : (ℕ → ℕ) → (ℕ → ℕ) → ℕ → List ℕ → ℕ → Type 0
Links next prev a [] c = (next a ≡ c) × (prev c ≡ a)
Links next prev a (x ∷ xs) c = (next a ≡ x) × (prev x ≡ a) × Links next prev x xs c

abbrev pub Fresh : ℕ → List ℕ → Type 0
Fresh a [] = Unit
Fresh a (x ∷ xs) = (a ≢ x) × Fresh a xs

abbrev pub Distinct : List ℕ → Type 0
Distinct [] = Unit
Distinct (x ∷ xs) = Fresh x xs × Distinct xs

Links-next :
    (next prev : ℕ → ℕ) (p v a c : ℕ) (xs : List ℕ)
    → Fresh p (a ∷ xs)
    → Links next prev a xs c
    → Links (update next p v) prev a xs c
Links-next next prev p v a c [] (f, _) (n, q) = (update_ne next p v a (λ e. f (sym e)) ∙ n, q)
Links-next next prev p v a c (x ∷ xs) (f, g) (n, q, rest) =
    (update_ne next p v a (λ e. f (sym e)) ∙ n, q, Links-next next prev p v x c xs g rest)

Links-prev :
    (next prev : ℕ → ℕ) (p v a c : ℕ) (xs : List ℕ)
    → Fresh p (c ∷ xs)
    → Links next prev a xs c
    → Links next (update prev p v) a xs c
Links-prev next prev p v a c [] (f, _) (n, q) = (n, update_ne prev p v c (λ e. f (sym e)) ∙ q)
Links-prev next prev p v a c (x ∷ xs) (f, (g, h)) (n, q, rest) =
    (n, update_ne prev p v x (λ e. g (sym e)) ∙ q, Links-prev next prev p v x c xs (f, h) rest)

-- An entry of the list has its neighbours among the others and the ends.
prev_ne :
    (next prev : ℕ → ℕ) (p a b c : ℕ) (xs ys : List ℕ)
    → Fresh p (a ∷ (xs ++ (b ∷ ys)))
    → Links next prev a (xs ++ (b ∷ ys)) c
    → prev b ≢ p
prev_ne next prev p a b c [] ys (f, _) (n, q, _) e = f (sym e ∙ q)
prev_ne next prev p a b c (x ∷ xs) ys (_, f) (n, q, rest) e =
    prev_ne next prev p x b c xs ys f rest e

next_first :
    (next prev : ℕ → ℕ) (p a c : ℕ) (xs : List ℕ)
    → Fresh p (c ∷ xs)
    → Links next prev a xs c
    → next a ≢ p
next_first next prev p a c [] (f, _) (n, _) e = f (sym e ∙ n)
next_first next prev p a c (x ∷ xs) (_, (f, _)) (n, _, _) e = f (sym e ∙ n)

next_ne :
    (next prev : ℕ → ℕ) (p a b c : ℕ) (xs ys : List ℕ)
    → Fresh p (c ∷ (xs ++ (b ∷ ys)))
    → Links next prev a (xs ++ (b ∷ ys)) c
    → next b ≢ p
next_ne next prev p a b c [] ys (f, (_, g)) (n, q, rest) = next_first next prev p b c ys (f, g) rest
next_ne next prev p a b c (x ∷ xs) ys (f, (_, g)) (n, q, rest) =
    next_ne next prev p x b c xs ys (f, g) rest

-- One entry is taken out.
pub Links-unlink :
    (next prev : ℕ → ℕ) (a b c : ℕ) (xs ys : List ℕ)
    → Fresh a (xs ++ (b ∷ ys))
    → Distinct (xs ++ (b ∷ ys))
    → Fresh c (xs ++ (b ∷ ys))
    → Links next prev a (xs ++ (b ∷ ys)) c
    → Links (update next (prev b) (next b)) (update prev (next b) (prev b)) a (xs ++ ys) c
Links-unlink next prev a b c [] [] fa d fc (n, q, (n', q')) =
    rw (q, n') (update_self next a c, update_self prev c a)
Links-unlink next prev a b c [] (y ∷ ys) (_, fa) (_, (dy, _)) (_, (cy, _)) (n, q, (n', q', rest)) =
    (
      rw (q, n') (update_self next a y),
      rw (q, n') (update_self prev y a),
      Links-next next (update prev (next b) (prev b)) (prev b) (next b) y c ys
          (subst (λ z. Fresh z (y ∷ ys)) (sym q) fa)
          (Links-prev next prev (next b) (prev b) y c ys
            (subst (λ z. Fresh z (c ∷ ys)) (sym n') ((λ e. cy (sym e)), dy)) rest),
    )
Links-unlink next prev a b c (x ∷ xs) ys (fx, fa) (dx, d) (cx, fc) (n, q, rest) = (
  update_ne next (prev b) (next b) a (λ e. prev_ne next prev a x b c xs ys (fx, fa) rest (sym e))
      ∙ n,
  update_ne prev (next b) (prev b) x
        (λ e. next_ne next prev x x b c xs ys ((λ e'. cx (sym e')), dx) rest (sym e))
      ∙ q,
  Links-unlink next prev x b c xs ys dx d fc rest,
)

-- An entry is put behind `c`.
pub Links-insert :
    (next prev : ℕ → ℕ) (b c : ℕ) (xs : List ℕ)
    → Fresh b (c ∷ xs)
    → Fresh c xs
    → Distinct xs
    → Links next prev c xs c
    → Links
        (update (update next b (next c)) c b)
        (update (update prev b c) (update next b (next c) c) b)
        c
        (b ∷ xs)
        c
Links-insert next prev b c [] (bc, _) _ _ (n, q) =
    let e : update next b (next c) c ≡ c = update_ne next b (next c) c (λ r. bc (sym r)) ∙ n in
    let m = update next b (next c) c in
    (
      update_self (update next b (next c)) c b,
      update_ne (update prev b c) m b b (λ r. bc (r ∙ e)) ∙ update_self prev b c,
      (
        update_ne (update next b (next c)) c b b bc ∙ update_self next b (next c) ∙ n,
        subst (λ z. update (update prev b c) z b c ≡ b) (sym e) (update_self (update prev b c) c b),
      ),
    )
Links-insert next prev b c (x ∷ xs) (bc, (bx, fb)) (cx, fc) (dx, d) (n, q, rest) =
    let e : update next b (next c) c ≡ x = update_ne next b (next c) c (λ r. bc (sym r)) ∙ n in
    let m = update next b (next c) c in
    (
      update_self (update next b (next c)) c b,
      update_ne (update prev b c) m b b (λ r. bx (r ∙ e)) ∙ update_self prev b c,
      (
        update_ne (update next b (next c)) c b b bc ∙ update_self next b (next c) ∙ n,
        subst (λ z. update (update prev b c) z b x ≡ b) (sym e) (update_self (update prev b c) x b),
        Links-next (update next b (next c)) (update (update prev b c) m b) c b x c xs (cx, fc)
            (Links-next next (update (update prev b c) m b) b (next c) x c xs (bx, fb)
              (Links-prev next (update prev b c) m b x c xs
                (subst (λ z. Fresh z (c ∷ xs)) (sym e) ((λ r. cx (sym r)), dx))
                (Links-prev next prev b c x c xs (bc, fb) rest))),
      ),
    )

Links-snoc :
    (next prev : ℕ → ℕ) (a x c : ℕ) (xs : List ℕ)
    → Links next prev a xs x
    → next x ≡ c
    → prev c ≡ x
    → Links next prev a (xs ++ (x ∷ [])) c
Links-snoc next prev a x c [] (n, q) n' q' = (n, q, (n', q'))
Links-snoc next prev a x c (y ∷ xs) (n, q, rest) n' q' =
    (n, q, Links-snoc next prev y x c xs rest n' q')

abbrev pub reverse : List ℕ → List ℕ
reverse [] = []
reverse (x ∷ xs) = reverse xs ++ (x ∷ [])

-- The other direction.
pub Links-reverse :
    (next prev : ℕ → ℕ) (a c : ℕ) (xs : List ℕ)
    → Links next prev a xs c
    → Links prev next c (reverse xs) a
Links-reverse next prev a c [] (n, q) = (q, n)
Links-reverse next prev a c (x ∷ xs) (n, q, rest) =
    Links-snoc prev next c x a (reverse xs) (Links-reverse next prev x c xs rest) q n
