-- ===== src/Grep/Language.antt =====
-- What the matcher of user/grep.c decides: which texts begin with a match of a pattern.
use os2025_assignment.Base.{
  ℕ, ◌≡◌, refl, ◌≢◌, Bool, true, false, inl, inr, List, [], ◌∷◌, ◌++◌, arith, ◌==◌, Bool-cases, ◌↔◌,
  ap, ==_ne,
}
use os2025_assignment.Grep.{fits, matchstar, match_one, matchhere, match_loop, match_text}

abbrev pub starred : List ℕ → Bool
starred [] = false
starred (d ∷ _) = d == b'*'

-- the pattern of `$` alone
abbrev pub is_end : ℕ → List ℕ → Bool
is_end c [] = c == b'$'
is_end c (_ ∷ _) = false

-- `Begins re text`: the text begins with a match of the pattern.
pub data Begins : List ℕ → List ℕ → Type 0 where
  done : {t : List ℕ} → Begins [] t
  line_end : {c : ℕ} → c ≡ b'$' → Begins (c ∷ []) []
  one :
      {c x : ℕ} {re t : List ℕ}
      → starred re ≡ false
      → is_end c re ≡ false
      → fits c x ≡ true
      → Begins re t
      → Begins (c ∷ re) (x ∷ t)
  star_none : {c d : ℕ} {re t : List ℕ} → d ≡ b'*' → Begins re t → Begins (c ∷ d ∷ re) t
  star_more :
      {c d x : ℕ} {re t : List ℕ}
      → d ≡ b'*'
      → fits c x ≡ true
      → Begins (c ∷ d ∷ re) t
      → Begins (c ∷ d ∷ re) (x ∷ t)

matchstar-Begins :
    (c d : ℕ) (re : List ℕ)
    → ((t : List ℕ) → matchhere re t ≡ true → Begins re t)
    → d ≡ b'*'
    → (t : List ℕ) → matchstar (matchhere re) c t ≡ true
    → Begins (c ∷ d ∷ re) t
unfolding matchstar
matchstar-Begins c d re ih e [] h = star_none e (ih [] h)
matchstar-Begins c d re ih e (x ∷ t) h = elim (Bool-cases (matchhere re (x ∷ t))) [
  | inl now ↦ star_none e (ih (x ∷ t) now)
  | inr later ↦ elim (Bool-cases (fits c x)) [
    | inl f ↦ star_more e f (matchstar-Begins c d re ih e t (rw (later, f) at h))
    | inr f ↦ cc (rw (later, f) at h)
  ]
]

-- What `matchhere` accepts begins with a match.
pub matchhere-Begins : (re t : List ℕ) → matchhere re t ≡ true → Begins re t
unfolding matchhere match_one
matchhere-Begins [] t h = done
matchhere-Begins (c ∷ []) [] h = line_end (ground arith)
matchhere-Begins (c ∷ []) (x ∷ t) h = one refl (ground arith) (ground arith) done
matchhere-Begins (c ∷ d ∷ re) [] h = elim (Bool-cases (d == b'*')) [
  | inl star ↦ matchstar-Begins c d re (matchhere-Begins re) (ground arith) [] (rw star at h)
  | inr plain ↦ cc (rw plain at h)
]
matchhere-Begins (c ∷ d ∷ re) (x ∷ t) h = elim (Bool-cases (d == b'*')) [
  | inl star ↦ matchstar-Begins c d re (matchhere-Begins re) (ground arith) (x ∷ t) (rw star at h)
  | inr plain ↦ elim (Bool-cases (fits c x)) [
    | inl f ↦ one plain refl f (matchhere-Begins (d ∷ re) t (rw (plain, f) at h))
    | inr f ↦ cc (rw (plain, f) at h)
  ]
]

matchstar_now :
    (rest : List ℕ → Bool) (c : ℕ) (t : List ℕ) → rest t ≡ true → matchstar rest c t ≡ true
unfolding matchstar
matchstar_now rest c [] h = h
matchstar_now rest c (x ∷ t) h = rw h

star_test : (d : ℕ) → d ≡ b'*' → (d == b'*') ≡ true
star_test d e = ground arith

-- `matchhere` accepts what begins with a match.
pub Begins-matchhere : {re t : List ℕ} → Begins re t → matchhere re t ≡ true
unfolding matchhere match_one matchstar
Begins-matchhere done = refl
Begins-matchhere (line_end e) = ground arith
Begins-matchhere (one {c} {x} {re = []} s d f b) = rw (d, f)
Begins-matchhere (one {c} {x} {re = d' ∷ re} s d f b) = rw (s, f) (Begins-matchhere b)
Begins-matchhere (star_none {c} {d} {re} {t} e b) =
    rw (star_test d e) (matchstar_now (matchhere re) c t (Begins-matchhere b))
Begins-matchhere (star_more {c} {d} {x} {re} {t} e f b) =
    let later = rw (star_test d e) at (Begins-matchhere b) in
    rw (star_test d e, f, later) (ground arith)

-- `matchhere` decides whether the text begins with a match of the pattern.
pub matchhere_iff : (re t : List ℕ) → (matchhere re t ≡ true) ↔ Begins re t
matchhere_iff re t = (matchhere-Begins re t, Begins-matchhere)

match_loop-Begins :
    (re t : List ℕ)
    → match_loop re t ≡ true
    → (before : List ℕ) × (after : List ℕ) × (before ++ after ≡ t) × Begins re after
unfolding match_loop
match_loop-Begins re [] h = ([], [], refl, matchhere-Begins re [] h)
match_loop-Begins re (x ∷ t) h = elim (Bool-cases (matchhere re (x ∷ t))) [
  | inl now ↦ ([], x ∷ t, refl, matchhere-Begins re (x ∷ t) now)
  | inr later ↦
      let found = match_loop-Begins re t (rw later at h) in
      (x ∷ found.0, found.1, ap (λ s. x ∷ s) (found.2), found.3)
]

Begins-match_loop :
    (re before after : List ℕ) → Begins re after → match_loop re (before ++ after) ≡ true
unfolding match_loop
Begins-match_loop re [] [] b = Begins-matchhere b
Begins-match_loop re [] (x ∷ t) b = rw (Begins-matchhere b)
Begins-match_loop re (x ∷ before) after b =
    let later = Begins-match_loop re before after b in
    elim (Bool-cases (matchhere re (x ∷ before ++ after))) [
      | inl now ↦ rw now
      | inr not_now ↦ rw not_now later
    ]

-- The pattern has no `^` in front.
abbrev pub Unanchored : List ℕ → Type 0
Unanchored [] = Unit
Unanchored (c ∷ re) = c ≢ b'^'

-- A pattern with no `^` in front, the empty one included, is accepted exactly when a match of it
-- begins somewhere in the text, the end of the text included.
pub match_text_iff :
    (re t : List ℕ)
    → Unanchored re
    → (match_text re t ≡ true)
      ↔ ((before : List ℕ) × (after : List ℕ) × (before ++ after ≡ t) × Begins re after)
unfolding match_text
match_text_iff [] t u = (
  λ h. match_loop-Begins [] t h,
  λ (before, after, e, b). rw (← e) (Begins-match_loop [] before after b),
)
match_text_iff (c ∷ re) t ne = (
  λ h. match_loop-Begins (c ∷ re) t (rw (==_ne c b'^' ne) at h),
  λ (before, after, e, b). rw (==_ne c b'^' ne, ← e) (Begins-match_loop (c ∷ re) before after b),
)
