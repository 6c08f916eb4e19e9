-- ===== src/Sysfile/Counts.antt =====
-- The references that kernel/file.c counts: one for each descriptor of the process that makes the
-- calls, and those that others hold.
use os2025_assignment.Base.{
  ℕ, zero, suc, ◌+◌, ◌<◌, ◌≤◌, ◌==◌, ◌≡◌, ◌≢◌, refl, ap, Bool, true, false, update, update_self,
  update_ne, arith,
}
use native.Mathlib.Decide.{ℕ_discrete}
use os2025_assignment.File.{File, unset, Ftable}
use os2025_assignment.Sysfile.{nofile}

abbrev pub one : Bool → ℕ
one true = 1
one false = 0

-- how many of the descriptors below `n` stand for the file `f`
unfoldable pub refs : (ℕ → ℕ) → ℕ → ℕ → ℕ
refs o f zero = 0
refs o f (suc n) = refs o f n + one (o n == f + 1)

-- one reference to `f` more than `others`
abbrev pub bump : ℕ → (ℕ → ℕ) → ℕ → ℕ
bump f others g = others g + one (g == f)

-- Every entry counts its references, and an entry without any has no kind.
pub record IsCounted (others : ℕ → ℕ) (o : ℕ → ℕ) (t : Ftable) : Type 0 where
  pub counts : (f : ℕ) → (t f).ref ≡ others f + refs o f nofile
  pub clean : (f : ℕ) → (t f).ref ≡ 0 → (t f).kind ≡ unset

refs_far : (o : ℕ → ℕ) (f fd v n : ℕ) → n ≤ fd → refs (update o fd v) f n ≡ refs o f n
unfolding refs
refs_far o f fd v zero h = refl
refs_far o f fd v (suc n) h =
    rw (refs, refs_far o f fd v n (omega arith), update_ne o fd v n (omega arith)) refl

refs-update :
    (o : ℕ → ℕ) (f fd v n : ℕ)
    → fd < n
    → refs (update o fd v) f n + one (o fd == f + 1) ≡ refs o f n + one (v == f + 1)
unfolding refs
refs-update o f fd v zero h = omega arith
refs-update o f fd v (suc n) h = elim (ℕ_discrete n fd) [
  | yes e ↦ rw (refs, e, refs_far o f fd v fd (omega arith), update_self o fd v) (omega arith)
  | no ne ↦ rw (refs, update_ne o fd v n ne) (omega (arith, refs-update o f fd v n (omega arith)))
]

one_free : (v g : ℕ) → v ≡ 0 → one (v == g + 1) ≡ 0
one_free v g e = ground (arith, ap one, e)

one_same : (v f g : ℕ) → v ≡ f + 1 → one (v == g + 1) ≡ one (g == f)
one_same v f g e = ap one (ground (arith, e))

-- a free descriptor takes over a reference
pub IsCounted-take :
    (others o : ℕ → ℕ) (t : Ftable) (f k : ℕ)
    → IsCounted (bump f others) o t
    → k < nofile
    → o k ≡ 0
    → IsCounted others (update o k (f + 1)) t
IsCounted-take others o t f k c h z = record {
  counts = λ g.
      let eq = refs-update o g k (f + 1) nofile h in
      let all = c.counts g in omega (arith, one_free (o k) g z, one_same (f + 1) f g refl);
  clean = c.clean;
}

-- a descriptor is cleared, and its reference is left over
pub IsCounted-drop :
    (others o : ℕ → ℕ) (t : Ftable) (f k : ℕ)
    → IsCounted others o t
    → k < nofile
    → o k ≡ f + 1
    → IsCounted (bump f others) (update o k 0) t
IsCounted-drop others o t f k c h e = record {
  counts = λ g.
      let eq = refs-update o g k 0 nofile h in
      let all = c.counts g in omega (arith, one_free 0 g refl, one_same (o k) f g e);
  clean = c.clean;
}

-- an entry with another count
module _ (others others' o : ℕ → ℕ) (t : Ftable) (f : ℕ) (file : File) where
  pub IsCounted-entry :
      IsCounted others o t
      → (t f).ref + others' f ≡ file.ref + others f
      → ((g : ℕ) → g ≢ f → others' g ≡ others g)
      → (file.ref ≡ 0 → file.kind ≡ unset)
      → IsCounted others' o (update t f file)
  IsCounted-entry c here there clean = record {
    counts = λ g. elim (ℕ_discrete g f) [
      | yes e ↦ rw (e, update_self t f file) (omega (arith, c.counts f))
      | no ne ↦ rw (update_ne t f file g ne, there g ne) (c.counts g)
    ];
    clean = λ g. elim (ℕ_discrete g f) [
      | yes e ↦ rw (e, update_self t f file) clean
      | no ne ↦ rw (update_ne t f file g ne) (c.clean g)
    ];
  }
