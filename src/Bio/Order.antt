-- ===== src/Bio/Order.antt =====
-- The order of the buffers: most recently used first.
use os2025_assignment.Base.{
  ℕ, zero, suc, ◌+◌, ◌≤◌, ◌<◌, ◌≡◌, ◌≢◌, refl, ap, sym, Bool, false, Option, none, some, List, [],
  ◌∷◌, ◌++◌, length, ==_ne, if◌then◌else◌, arith, update,
}
use mathlib.Core.Path.{subst}
use os2025_assignment.Bio.{nbuf, head, Cache, set_buf, insert, unlink, binit_loop, scan}
use os2025_assignment.Bio.Ring.{Links, Fresh, Distinct, Links-unlink, Links-insert}

-- The buffers of the list, in its order, are linked into a ring with the head.
pub record IsOrder (xs : List ℕ) (s : Cache) : Type 0 where
  pub links : Links s.next s.prev head xs head
  pub head_fresh : Fresh head xs
  pub distinct : Distinct xs
  pub few : length xs ≤ nbuf

pub insert-IsOrder :
    (b : ℕ) (xs : List ℕ) (s : Cache)
    → length xs < nbuf
    → b ≢ head
    → Fresh b xs
    → IsOrder xs s
    → IsOrder (b ∷ xs) (insert b s)
unfolding insert
insert-IsOrder b xs s l bh f o = record {
  links = Links-insert s.next s.prev b head xs (bh, f) o.head_fresh o.distinct o.links;
  head_fresh = ((λ e. bh (sym e)), o.head_fresh);
  distinct = (f, o.distinct);
  few = omega arith;
}

Fresh-without : (a b : ℕ) (xs ys : List ℕ) → Fresh a (xs ++ (b ∷ ys)) → Fresh a (xs ++ ys)
Fresh-without a b [] ys (_, f) = f
Fresh-without a b (x ∷ xs) ys (e, f) = (e, Fresh-without a b xs ys f)

pub Fresh-ne : (a b : ℕ) (xs ys : List ℕ) → Fresh a (xs ++ (b ∷ ys)) → a ≢ b
Fresh-ne a b [] ys (e, _) = e
Fresh-ne a b (x ∷ xs) ys (_, f) = Fresh-ne a b xs ys f

pub length_without : (b : ℕ) (xs ys : List ℕ) → length (xs ++ (b ∷ ys)) ≡ suc (length (xs ++ ys))
length_without b [] ys = refl
length_without b (x ∷ xs) ys = ap suc (length_without b xs ys)

-- writing what stands there at another place
update_same : (f : ℕ → ℕ) (i j : ℕ) → update f i (f j) j ≡ f j
update_same f i j = ground arith

pub Distinct-without :
    (b : ℕ) (xs ys : List ℕ) → Distinct (xs ++ (b ∷ ys)) → Distinct (xs ++ ys) × Fresh b (xs ++ ys)
Distinct-without b [] ys (f, d) = (d, f)
Distinct-without b (x ∷ xs) ys (f, d) =
    let (d', f') = Distinct-without b xs ys d in
    ((Fresh-without x b xs ys f, d'), ((λ e. Fresh-ne x b xs ys f (sym e)), f'))

pub unlink-IsOrder :
    (b : ℕ) (xs ys : List ℕ) (s : Cache)
    → IsOrder (xs ++ (b ∷ ys)) s
    → IsOrder (xs ++ ys) (unlink b s)
unfolding unlink
unlink-IsOrder b xs ys s o = record {
  links =
      subst
        (λ z.
          Links (update s.next z (s.next b)) (update s.prev (s.next b) (s.prev b)) head (xs ++ ys)
            head)
        (sym (update_same s.prev (s.next b) b))
        (Links-unlink s.next s.prev head b head xs ys o.head_fresh o.distinct o.head_fresh o.links);
  head_fresh = Fresh-without head b xs ys o.head_fresh;
  distinct = (Distinct-without b xs ys o.distinct).0;
  few = let f = o.few in omega (arith, length_without b xs ys);
}

-- The list that `binit` makes: the last buffer first.
abbrev pub count_up : ℕ → ℕ → List ℕ → List ℕ
count_up zero b xs = xs
count_up (suc n) b xs = count_up n (b + 1) (b ∷ xs)

pub binit_loop-IsOrder :
    (n b : ℕ) (xs : List ℕ) (s : Cache)
    → b + n ≡ nbuf
    → length xs ≡ b
    → ((k : ℕ) → b ≤ k → Fresh k xs)
    → IsOrder xs s
    → IsOrder (count_up n b xs) (binit_loop n b s)
unfolding binit_loop
binit_loop-IsOrder zero b xs s e l f o = o
binit_loop-IsOrder (suc n) b xs s e l f o =
    binit_loop-IsOrder n (b + 1) (b ∷ xs)
      (insert b (set_buf b (λ i. record i { locked = false }) s)) (omega arith) (omega arith)
      (λ k h. ((λ q. absurd (omega arith)), f k (omega arith)))
      (insert-IsOrder b xs (set_buf b (λ i. record i { locked = false }) s) (omega arith)
        (λ q. absurd (omega arith)) (f b (omega arith))
        (record { links = o.links; head_fresh = o.head_fresh; distinct = o.distinct; few = o.few }))

-- the loops of `bget` on the list
abbrev pub find : (ℕ → Bool) → List ℕ → Option ℕ
find test [] = none
find test (x ∷ xs) = let rest = find test xs in if test x then some x else rest

pub scan-find :
    (fuel a : ℕ) (xs : List ℕ) (link back : ℕ → ℕ) (test : ℕ → Bool)
    → length xs < fuel
    → Fresh head xs
    → Links link back a xs head
    → scan fuel link test (link a) ≡ find test xs
unfolding scan
scan-find zero a xs link back test l f k = absurd (omega arith)
scan-find (suc fuel) a [] link back test l f (n, _) = rw (n) refl
scan-find (suc fuel) a (x ∷ xs) link back test l (e, f) (n, _, k) =
    rw (n, ==_ne x head (λ q. e (sym q)), scan-find fuel x xs link back test (omega arith) f k) refl
