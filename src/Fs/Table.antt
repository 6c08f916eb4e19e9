-- ===== src/Fs/Table.antt =====
-- The table of inodes: `iget` keeps at most one entry for an inode.
use os2025_assignment.Base.{
  update_self, update_ne, add_sub_one, ℕ, ◌+◌, ◌-◌, ◌≤◌, ◌<◌, ◌≡◌, ◌≢◌, refl, ◌∙◌, ap, sym, inl,
  inr, ◌⊎◌, false, ==_ne, arith,
}
use native.Mathlib.Decide.{ℕ_discrete}
use os2025_assignment.Machine.{ok, Run, panic}
use os2025_assignment.Fs.{Fs, Inode, ninode}
use os2025_assignment.Fs.Inodes.{Search, hit, miss, iget_loop, iget}
use os2025_assignment.Fs.Scan.{IsFor, IsUnique, Scanned, iget_loop_lem}

-- What `iget` leaves: the entry of its result is for the inode and has one reference more than
-- before, or it is one that was free and is not valid yet; no other entry has changed.
pub Gotten : ℕ → ℕ → Fs → Run Fs ℕ → Type 0
Gotten dev inum s panic =
    (i : ℕ) → i < ninode → (0 < (s.itable i).ref) × (¬ IsFor dev inum (s.itable i))
Gotten dev inum s (ok ip s') =
    (1 ≤ ip)
    × (ip ≤ ninode)
    × (((s'.itable (ip - 1) ≡ record (s.itable (ip - 1)) { ref = (s.itable (ip - 1)).ref + 1 })
          × IsFor dev inum (s.itable (ip - 1)))
        ⊎ ((s'.itable (ip - 1)
              ≡ record (s.itable (ip - 1)) { dev = dev; inum = inum; ref = 1; valid = false })
            × ((s.itable (ip - 1)).ref ≡ 0)
            × ((i : ℕ) → i < ninode → ¬ IsFor dev inum (s.itable i))))
    × ((i : ℕ) → i ≢ ip - 1 → s'.itable i ≡ s.itable i)

finish :
    (dev inum : ℕ) (s : Fs) (r : Search)
    → Scanned ninode 1 0 dev inum s.itable r
    → iget_loop ninode 1 0 dev inum s.itable ≡ r
    → Gotten dev inum s (iget dev inum s)
unfolding iget Gotten Scanned
finish dev inum s (hit p) (l, u, for) e = rw e (
  omega arith,
  omega arith,
  inl (update_self s.itable (p - 1) _, for),
  update_ne s.itable (p - 1) _,
)
finish dev inum s (miss e) (all, z, f) eq = elim (ℕ_discrete e 0) [
  | yes e0 ↦
      rw (eq, e0)
        (λ i l. (
          rw (← add_sub_one i) ((z e0).1 (i + 1) (omega arith) (omega arith)),
          rw (← add_sub_one i) (all (i + 1) (omega arith) (omega arith)),
        ))
  | no e0 ↦ elim (f e0) [
    | inl e1 ↦ absurd (e0 e1)
    | inr (l, u, free) ↦
        rw (eq, ==_ne e 0 e0)
          (
            omega arith,
            omega arith,
            inr (
              update_self s.itable (e - 1) _,
              free,
              λ i k. rw (← add_sub_one i) (all (i + 1) (omega arith) (omega arith)),
            ),
            update_ne s.itable (e - 1) _,
          )
  ]
]

-- `iget` returns a pointer into the table. Either its entry was already for this inode, and now has
-- one reference more, or no entry was, and its entry was free, is for this inode now, has one
-- reference and is marked as not read from the disk. The other entries are as they were. It panics
-- only if every entry is in use and none is for this inode.
pub iget_lem : (dev inum : ℕ) (s : Fs) → Gotten dev inum s (iget dev inum s)
iget_lem dev inum s =
    finish dev inum s _ (iget_loop_lem ninode 1 0 dev inum s.itable (omega arith)) refl

-- One reference more leaves what the entry is for, and so does no change.
IsFor-back :
    (t t' : ℕ → Inode) (m : ℕ)
    → t' m ≡ record (t m) { ref = (t m).ref + 1 }
    → (0 < (t m).ref)
    → ((k : ℕ) → k ≢ m → t' k ≡ t k)
    → (k d n : ℕ) → IsFor d n (t' k)
    → IsFor d n (t k)
IsFor-back t t' m e pos others k d n f = elim (ℕ_discrete k m) [
  | no q ↦ rw (others k q) at f
  | yes q ↦ rw q (
      let f' : IsFor d n (t' m) = rw q at f in
      (pos, sym (ap (λ x. x.dev) e) ∙ f'.1, sym (ap (λ x. x.inum) e) ∙ f'.2))
]

-- The entry that was free is for the new inode, and all others are as before.
new_clash :
    (t t' : ℕ → Inode) (m dev inum : ℕ)
    → ((t' m).dev ≡ dev) × ((t' m).inum ≡ inum)
    → ((i : ℕ) → i < ninode → ¬ IsFor dev inum (t i))
    → ((k : ℕ) → k ≢ m → t' k ≡ t k)
    → (j d n : ℕ) → j < ninode
    → j ≢ m
    → IsFor d n (t' m)
    → IsFor d n (t' j)
    → ⊥
new_clash t t' m dev inum (e, e') none_ others j d n h q (_, a, b) fj =
    let (pos, c, c') : IsFor d n (t j) = rw (others j q) at fj in
    none_ j h (pos, c ∙ sym a ∙ e, c' ∙ sym b ∙ e')

IsUnique-after :
    (dev inum ip : ℕ) (s s' : Fs)
    → IsUnique s.itable
    → Gotten dev inum s (ok ip s')
    → IsUnique s'.itable
unfolding Gotten
IsUnique-after dev inum ip s s' uniq (l, u, inl (e, for), others) i j d n hi hj fi fj =
    let back = IsFor-back s.itable s'.itable (ip - 1) e for.0 others in
    uniq i j d n hi hj (back i d n fi) (back j d n fj)
IsUnique-after dev inum ip s s' uniq (l, u, inr (e, free, none_), others) i j d n hi hj fi fj =
    let clash =
      new_clash s.itable s'.itable (ip - 1) dev inum (ap (λ x. x.dev) e, ap (λ x. x.inum) e) none_
        others in
    elim (ℕ_discrete i (ip - 1)) [
      | yes qi ↦ elim (ℕ_discrete j (ip - 1)) [
        | yes qj ↦ qi ∙ sym qj
        | no qj ↦ absurd (clash j d n hj qj (rw qi at fi) fj)
      ]
      | no qi ↦ elim (ℕ_discrete j (ip - 1)) [
        | yes qj ↦ absurd (clash i d n hi qi (rw qj at fj) fi)
        | no qj ↦ uniq i j d n hi hj (rw (others i qi) at fi) (rw (others j qj) at fj)
      ]
    ]

-- With no two entries for the same inode before `iget`, there are none after it.
pub iget-IsUnique :
    (dev inum : ℕ) (s s' : Fs) (ip : ℕ)
    → IsUnique s.itable
    → iget dev inum s ≡ ok ip s'
    → IsUnique s'.itable
iget-IsUnique dev inum s s' ip uniq e =
    IsUnique-after dev inum ip s s' uniq (rw e at (iget_lem dev inum s))
