-- ===== src/Sysfile/Slots.antt =====
-- The searches for a free descriptor (`fdalloc` of kernel/sysfile.c) and for a free entry of the
-- file table (`filealloc` of kernel/file.c).
use os2025_assignment.Base.{
  ℕ, zero, suc, ◌+◌, ◌<◌, ◌≤◌, ◌==◌, ◌≡◌, ◌≢◌, ◌⊎◌, inl, inr, refl, false, Bool-cases, none, some,
  update, arith,
}
use native.Mathlib.Decide.{ℕ_discrete}
use os2025_assignment.Machine.{ok}
use os2025_assignment.File.{Ftable, nfile, filealloc_loop, filealloc}
use os2025_assignment.Sysfile.{Sys, nofile, fdalloc_loop, fdalloc}

-- the range a search has passed, with its first element
used_next :
    (o : ℕ → ℕ) (i m : ℕ)
    → (o i == 0) ≡ false
    → ((j : ℕ) → i + 1 ≤ j → j < m → o j ≢ 0)
    → (j : ℕ) → i ≤ j
    → j < m
    → o j ≢ 0
used_next o i m t h j le lt = elim (ℕ_discrete j i) [
  | yes e ↦ λ z. ground (arith, t, e, z)
  | no ne ↦ h j (omega arith) lt
]

module _ {W : Type 0} where
  -- the state with `fd` for the file `f`
  abbrev pub with_fd : Sys W → ℕ → ℕ → Sys W
  with_fd s fd f = record s { ofile = update s.ofile fd (f + 1) }

  fdalloc_loop_lem :
      (n fd f : ℕ) (s : Sys W)
      → ((fdalloc_loop n fd f s ≡ ok none s) × ((j : ℕ) → fd ≤ j → j < fd + n → s.ofile j ≢ 0))
        ⊎ ((k : ℕ) × (fdalloc_loop n fd f s ≡ ok (some k) (with_fd s k f))
            × (k < fd + n)
            × (s.ofile k ≡ 0)
            × ((j : ℕ) → fd ≤ j → j < k → s.ofile j ≢ 0))
  unfolding fdalloc_loop
  fdalloc_loop_lem zero fd f s = inl (refl, λ j h h' e. omega arith)
  fdalloc_loop_lem (suc n) fd f s = elim (Bool-cases (s.ofile fd == 0)) [
    | inl t ↦ inr (fd, rw (fdalloc_loop, t) refl, omega arith, ground arith, λ j h h'. omega arith)
    | inr t ↦ elim (fdalloc_loop_lem n (fd + 1) f s) [
      | inl (e, used) ↦ inl (
        rw (fdalloc_loop, t) e,
        λ j le lt. used_next s.ofile fd (fd + 1 + n) t used j le (omega arith),
      )
      | inr (k, e, h, free, used) ↦
          inr (k, rw (fdalloc_loop, t) e, omega arith, free, used_next s.ofile fd k t used)
    ]
  ]

  -- `fdalloc` puts the file into the lowest descriptor that is free; it gives -1 and changes
  -- nothing just when all of them are in use.
  pub fdalloc_lem :
      (f : ℕ) (s : Sys W)
      → ((fdalloc f s ≡ ok none s) × ((j : ℕ) → j < nofile → s.ofile j ≢ 0))
        ⊎ ((k : ℕ) × (fdalloc f s ≡ ok (some k) (with_fd s k f))
            × (k < nofile)
            × (s.ofile k ≡ 0)
            × ((j : ℕ) → j < k → s.ofile j ≢ 0))
  unfolding fdalloc
  fdalloc_lem f s = elim (fdalloc_loop_lem 16 0 f s) [
    | inl (e, used) ↦ inl (e, λ j. used j (omega arith))
    | inr (k, e, h, free, used) ↦ inr (k, e, h, free, λ j. used j (omega arith))
  ]

-- the table with `f` taken by `filealloc`
abbrev pub with_file : Ftable → ℕ → Ftable
with_file t f = update t f (record (t f) { ref = 1 })

filealloc_loop_lem :
    (n i : ℕ) (t : Ftable)
    → (filealloc_loop n i t ≡ (none, t))
      ⊎ ((f : ℕ) × (filealloc_loop n i t ≡ (some f, with_file t f)) × (f < i + n) × ((t f).ref ≡ 0))
unfolding filealloc_loop
filealloc_loop_lem zero i t = inl refl
filealloc_loop_lem (suc n) i t = elim (Bool-cases ((t i).ref == 0)) [
  | inl e ↦ inr (i, rw (filealloc_loop, e) refl, omega arith, ground arith)
  | inr e ↦ elim (filealloc_loop_lem n (i + 1) t) [
    | inl h ↦ inl (rw (filealloc_loop, e) h)
    | inr (f, h, lt, z) ↦ inr (f, rw (filealloc_loop, e) h, omega arith, z)
  ]
]

pub filealloc_lem :
    (t : Ftable)
    → (filealloc t ≡ (none, t))
      ⊎ ((f : ℕ) × (filealloc t ≡ (some f, with_file t f)) × (f < nfile) × ((t f).ref ≡ 0))
unfolding filealloc
filealloc_lem t = filealloc_loop_lem nfile 0 t
