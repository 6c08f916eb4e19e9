-- ===== src/Sysfile/Undo.antt =====
-- The two descriptors that `sys_pipe` of kernel/sysfile.c takes, and clears again if it fails.
use os2025_assignment.Base.{
  ℕ, ◌+◌, ◌<◌, ◌==◌, ==_self, ◌≡◌, ◌≢◌, refl, sym, ◌∙◌, if◌then◌else◌, update, update_self,
  update_ne, update_twice, update_eta, arith, fun_ext,
}
use mathlib.Core.Path.{subst}
use native.Mathlib.Decide.{ℕ_discrete}
use os2025_assignment.File.{Ftable}
use os2025_assignment.Sysfile.{nofile}
use os2025_assignment.Sysfile.Counts.{bump, IsCounted, IsCounted-drop}
use os2025_assignment.Sysfile.Shares.{IsCounted-swap}

pub undo_one : (o : ℕ → ℕ) (j v : ℕ) → o j ≡ 0 → update (update o j v) j 0 ≡ o
undo_one o j v z = update_twice o j v 0 ∙ subst (λ x. update o j x ≡ o) z (update_eta o j)

-- the second free descriptor is another one
pub fresh_two : (o : ℕ → ℕ) (j a k : ℕ) → update o j (a + 1) k ≡ 0 → (j ≢ k) × (o k ≡ 0)
fresh_two o j a k z = elim (ℕ_discrete k j) [
  | yes e ↦ elim (taken a (subst (λ x. (if x == j then a + 1 else o x) ≡ 0) e z)) [ ]
  | no ne ↦ (λ e. ne (sym e), sym (update_ne o j (a + 1) k ne) ∙ z)
]
  where
    taken : (v : ℕ) → update o j (v + 1) j ≢ 0
    taken v e = ground (arith, e)

pub undo_two :
    (o : ℕ → ℕ) (j v k w : ℕ)
    → j ≢ k
    → o j ≡ 0
    → o k ≡ 0
    → update (update (update (update o j v) k w) j 0) k 0 ≡ o
undo_two o j v k w ne zj zk = fun_ext λ i. elim (ℕ_discrete i k) [
  | yes e ↦ rw (e, ==_self k, zk) refl
  | no nk ↦ elim (ℕ_discrete i j) [ yes e ↦ ground (arith, e, zj) | no nj ↦ ground arith ]
]

-- both descriptors are cleared
pub drop_two :
    (others o : ℕ → ℕ) (t : Ftable) (a b j k : ℕ)
    → let o' = update (update o j (a + 1)) k (b + 1) in
      IsCounted others o' t
      → j < nofile
      → k < nofile
      → j ≢ k
      → IsCounted (bump a (bump b others)) (update (update o' j 0) k 0) t
drop_two others o t a b j k c l l' ne =
    let o' = update (update o j (a + 1)) k (b + 1) in
    let at_j = update_ne (update o j (a + 1)) k (b + 1) j ne ∙ update_self o j (a + 1) in
    let at_k = update_ne o' j 0 k (λ e. ne (sym e)) ∙ update_self (update o j (a + 1)) k (b + 1) in
    IsCounted-swap others (update (update o' j 0) k 0) t b a (
      IsCounted-drop (bump a others) (update o' j 0) t b k (IsCounted-drop others o' t a j c l at_j)
        l' at_k)
