-- ===== src/Sysfile/Shares.antt =====
-- `filealloc`, `filedup` and `fileclose` of kernel/file.c on counted references: each makes one
-- more or one less of them.
use os2025_assignment.Base.{
  ℕ, ◌+◌, ◌-◌, ◌<◌, ◌≤◌, ltb, ◌==◌, ==_self, ◌≡◌, ◌≢◌, ◌⊎◌, refl, sym, ap, inl, inr, true, false,
  Bool-cases, Option, none, some, update, update_self, update_ne, arith,
}
use mathlib.Core.Path.{subst}
use native.Mathlib.Decide.{ℕ_discrete}
use os2025_assignment.File.{File, unset, pipe, Ftable, filedup, fileclose}
use os2025_assignment.Sysfile.Slots.{with_file}
use os2025_assignment.Sysfile.Counts.{one, bump, IsCounted, IsCounted-entry, IsCounted-drop}
use os2025_assignment.Sysfile.{nofile}

pub bump_self : (f : ℕ) (others : ℕ → ℕ) → bump f others f ≡ others f + 1
bump_self f others = rw (==_self f) refl

pub bump_ne : (f : ℕ) (others : ℕ → ℕ) (g : ℕ) → g ≢ f → bump f others g ≡ others g
bump_ne f others g ne = omega (arith, off)
  where
    off : one (g == f) ≡ 0
    off = ap one {y = false} (ground arith)

held : (r : ℕ) → 1 ≤ r → ltb r 1 ≡ false
held r h = ground arith

shared : (r : ℕ) → 1 ≤ r → ltb 0 (r - 1) ≡ true → (r - 1) ≢ 0
shared r h e z = ground (arith, e, z)

last : (r : ℕ) → 1 ≤ r → ltb 0 (r - 1) ≡ false → r ≡ 1
last r h e = ground (arith, e)

-- A file that `fileclose` closes without the file system.
abbrev pub IsPlain : File → Type 0
IsPlain ff = (ff.kind ≡ unset) ⊎ (ff.kind ≡ pipe)

pub update-IsPlain :
    (t : Ftable) (f : ℕ) (file : File)
    → (IsPlain (t f) → IsPlain file)
    → (g : ℕ) → IsPlain (t g)
    → IsPlain (update t f file g)
update-IsPlain t f file h g p = elim (ℕ_discrete g f) [
  | yes e ↦ rw (e, update_self t f file) (h (subst (λ x. IsPlain (t x)) e p))
  | no ne ↦ rw (update_ne t f file g ne) p
]

pub IsCounted-swap :
    (others o : ℕ → ℕ) (t : Ftable) (f f' : ℕ)
    → IsCounted (bump f (bump f' others)) o t
    → IsCounted (bump f' (bump f others)) o t
IsCounted-swap others o t f f' c = record {
  counts = λ g. omega (arith, c.counts g);
  clean = c.clean;
}

module _ (others o : ℕ → ℕ) (t : Ftable) (f : ℕ) where
  pub IsCounted-with_file :
      IsCounted others o t → (t f).ref ≡ 0 → IsCounted (bump f others) o (with_file t f)
  IsCounted-with_file c z =
      IsCounted-entry others (bump f others) o t f (record (t f) { ref = 1 }) c
        (omega (arith, bump_self f others)) (bump_ne f others) (λ e. ground (arith, e))

  pub IsCounted-filedup :
      IsCounted others o t
      → 1 ≤ (t f).ref
      → (t' : Ftable) × (filedup f t ≡ some t') × IsCounted (bump f others) o t'
  unfolding filedup
  IsCounted-filedup c h = (
    update t f (record (t f) { ref = (t f).ref + 1 }),
    rw (filedup, held (t f).ref h) refl,
    IsCounted-entry others (bump f others) o t f (record (t f) { ref = (t f).ref + 1 }) c
        (omega (arith, bump_self f others)) (bump_ne f others) (λ e. ground (arith, e)),
  )

  pub IsCounted-fileclose :
      IsCounted (bump f others) o t
      → (r : Option File) × (t' : Ftable) × (fileclose f t ≡ some (r, t'))
        × IsCounted others o t'
        × ((g : ℕ) → IsPlain (t g) → IsPlain (t' g))
        × ((r ≡ none) ⊎ (r ≡ some (t f)))
  unfolding fileclose
  IsCounted-fileclose c = elim (Bool-cases (ltb 0 ((t f).ref - 1))) [
    | inl e ↦ (
      none,
      update t f (record (t f) { ref = (t f).ref - 1 }),
      rw (fileclose, held (t f).ref here, e) refl,
      IsCounted-entry (bump f others) others o t f (record (t f) { ref = (t f).ref - 1 }) c
          (omega (arith, bump_self f others, here)) (λ g ne. sym (bump_ne f others g ne))
          (λ z. elim (shared (t f).ref here e z) [ ]),
      update-IsPlain t f _ (λ p. p),
      inl refl,
    )
    | inr e ↦ (
      some (t f),
      update t f (record (t f) { ref = 0; kind = unset }),
      rw (fileclose, held (t f).ref here, e) refl,
      IsCounted-entry (bump f others) others o t f (record (t f) { ref = 0; kind = unset }) c
          (omega (arith, bump_self f others, last (t f).ref here e))
          (λ g ne. sym (bump_ne f others g ne)) (λ z. refl),
      update-IsPlain t f _ (λ _. inl refl),
      inr refl,
    )
  ]
    where
      here : 1 ≤ (t f).ref
      here = omega (arith, c.counts f, bump_self f others)

-- an open descriptor is a reference
pub IsCounted-held :
    (others o : ℕ → ℕ) (t : Ftable) (f fd : ℕ)
    → IsCounted others o t
    → fd < nofile
    → o fd ≡ f + 1
    → 1 ≤ (t f).ref
IsCounted-held others o t f fd c h e =
    let left = (IsCounted-drop others o t f fd c h e).counts f in
    omega (arith, left, bump_self f others)
