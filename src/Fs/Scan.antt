-- ===== src/Fs/Scan.antt =====
-- What the scan of `iget` finds in the table of inodes.
use os2025_assignment.Base.{
  ℕ, zero, suc, ◌+◌, ◌-◌, ◌≤◌, ◌<◌, ◌≡◌, ◌≢◌, refl, ◌∙◌, ap, sym, inl, inr, ◌⊎◌, true, false, ◌&&◌,
  ltb, ◌==◌, if◌then◌else◌, Bool-cases, arith,
}
use native.Mathlib.Decide.{ℕ_discrete}
use os2025_assignment.Fs.{Inode, ninode}
use os2025_assignment.Fs.Inodes.{Search, hit, miss, iget_loop}

-- The entry has references and is for the inode.
abbrev pub IsFor : ℕ → ℕ → Inode → Type 0
IsFor dev inum i = (0 < i.ref) × (i.dev ≡ dev) × (i.inum ≡ inum)

-- No two entries are for the same inode.
abbrev pub IsUnique : (ℕ → Inode) → Type 0
IsUnique t =
    (i j dev inum : ℕ)
    → i < ninode
    → j < ninode
    → IsFor dev inum (t i)
    → IsFor dev inum (t j)
    → i ≡ j

-- how the scan of the `n` entries from the pointer `ip` on ends
unfoldable pub Scanned : ℕ → ℕ → ℕ → ℕ → ℕ → (ℕ → Inode) → Search → Type 0
Scanned n ip empty dev inum t (hit p) = (ip ≤ p) × (p < ip + n) × IsFor dev inum (t (p - 1))
Scanned n ip empty dev inum t (miss e) =
    ((p : ℕ) → ip ≤ p → p < ip + n → ¬ IsFor dev inum (t (p - 1)))
    × ((e ≡ 0) → (empty ≡ 0) × ((p : ℕ) → ip ≤ p → p < ip + n → 0 < (t (p - 1)).ref))
    × ((e ≢ 0) → (e ≡ empty) ⊎ ((ip ≤ e) × (e < ip + n) × ((t (e - 1)).ref ≡ 0)))

-- The entry that the test of the loop takes is for the inode, and no other.
test-IsFor :
    (dev inum : ℕ) (i : Inode)
    → (ltb 0 i.ref && ((i.dev == dev) && (i.inum == inum))) ≡ true
    → IsFor dev inum i
test-IsFor dev inum i h = (ground arith, ground arith, ground arith)

test_complete :
    (dev inum : ℕ) (i : Inode)
    → (ltb 0 i.ref && ((i.dev == dev) && (i.inum == inum))) ≡ false
    → ¬ IsFor dev inum i
test_complete dev inum i h (a, b, c) = ground arith

-- what `empty` is behind an entry
abbrev next_empty : ℕ → ℕ → ℕ → ℕ
next_empty empty ref ip = if (empty == 0) && (ref == 0) then ip else empty

next_empty_cases :
    (empty ref ip : ℕ)
    → ((next_empty empty ref ip ≡ ip) × (empty ≡ 0) × (ref ≡ 0))
      ⊎ ((next_empty empty ref ip ≡ empty) × ((empty ≡ 0) → 0 < ref))
next_empty_cases empty ref ip = ground arith

positive : {a : ℕ} → 1 ≤ a → a ≡ 0 → ⊥
positive h e = omega arith

leq : {a b : ℕ} → a ≡ b → a ≤ b
leq e = omega arith

below : {a b : ℕ} (n : ℕ) → a ≡ b → a < b + suc n
below n e = omega arith

-- From the entries behind `ip` to all of them.
scan_step :
    (n ip empty dev inum : ℕ) (t : ℕ → Inode) (r : Search)
    → 1 ≤ ip
    → ¬ IsFor dev inum (t (ip - 1))
    → Scanned n (ip + 1) (next_empty empty ((t (ip - 1)).ref) ip) dev inum t r
    → Scanned (suc n) ip empty dev inum t r
unfolding Scanned
scan_step n ip empty dev inum t (hit p) h other (l, u, for) = (omega arith, omega arith, for)
scan_step n ip empty dev inum t (miss e) h other (none_, zero_, free) = (
  λ p l u. elim (ℕ_discrete p ip) [
    | yes q ↦ rw q other
    | no q ↦ none_ p (omega arith) (omega arith)
  ],
  λ z. elim (next_empty_cases empty (t (ip - 1)).ref ip) [
    | inl (e1, _, _) ↦ absurd (positive h (sym e1 ∙ (zero_ z).0))
    | inr (e1, pos) ↦ (
      sym e1 ∙ (zero_ z).0,
      λ p l u. elim (ℕ_discrete p ip) [
        | yes q ↦ rw q (pos (sym e1 ∙ (zero_ z).0))
        | no q ↦ (zero_ z).1 p (omega arith) (omega arith)
      ],
    )
  ],
  λ z. elim (free z) [
    | inr (l, u, r) ↦ inr (omega arith, omega arith, r)
    | inl e0 ↦ elim (next_empty_cases empty (t (ip - 1)).ref ip) [
      | inl (e1, _, r0) ↦
          inr (leq (sym (e0 ∙ e1)), below n (e0 ∙ e1), ap (λ x. (t (x - 1)).ref) (e0 ∙ e1) ∙ r0)
      | inr (e1, _) ↦ inl (e0 ∙ e1)
    ]
  ],
)

pub iget_loop_lem :
    (n ip empty dev inum : ℕ) (t : ℕ → Inode)
    → 1 ≤ ip
    → Scanned n ip empty dev inum t (iget_loop n ip empty dev inum t)
unfolding iget_loop Scanned
iget_loop_lem zero ip empty dev inum t h =
    (λ p l u. absurd (omega arith), λ e. (e, λ p l u. absurd (omega arith)), λ e. inl refl)
iget_loop_lem (suc n) ip empty dev inum t h =
    elim (Bool-cases
      (ltb 0 (t (ip - 1)).ref && (((t (ip - 1)).dev == dev) && ((t (ip - 1)).inum == inum)))) [
        | inl e ↦ rw e (omega arith, omega arith, test-IsFor dev inum (t (ip - 1)) e)
        | inr e ↦ rw e (
            scan_step n ip empty dev inum t _ h (test_complete dev inum (t (ip - 1)) e) (
              iget_loop_lem n (ip + 1) (next_empty empty ((t (ip - 1)).ref) ip) dev inum t
                (omega arith)))
      ]
