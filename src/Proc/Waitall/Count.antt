-- ===== src/Proc/Waitall/Count.antt =====
-- What the scan of `waitall` finds out about the children in the process table.
use os2025_assignment.Base.{
  ℕ, zero, suc, ◌+◌, ◌≡◌, refl, ◌∙◌, Bool, true, false, inl, inr, ◌&&◌, ◌||◌, not, List, [], ◌∷◌,
  ◌++◌, map, arith, ◌==◌, if◌then◌else◌, Bool-cases, length, slice, slice-snoc, slice-update,
  update, ==_self,
}
use mathlib.Core.List.{append_assoc, append-nil}
use os2025_assignment.Machine.{ok}
use os2025_assignment.Proc.{is_zombie, Proc, Services, Kernel}
use os2025_assignment.Proc.Locks.{acquire-held, release-then}
use os2025_assignment.Proc.Waitall.{Tally, tally_child, waitall_scan}

-- the entries among the `n` from `pp` on whose parent is `me`, in the order of the table
unfoldable pub children : ℕ → ℕ → ℕ → (ℕ → Proc) → List ℕ
children zero pp me procs = []
children (suc n) pp me procs =
    if (procs pp).parent == me
    then pp ∷ children n (pp + 1) me procs
    else children n (pp + 1) me procs

unfoldable pub all_zombies : List ℕ → (ℕ → Proc) → Bool
all_zombies [] procs = true
all_zombies (p ∷ ps) procs = is_zombie (procs p).state && all_zombies ps procs

unfoldable pub is_empty : List ℕ → Bool
is_empty [] = true
is_empty (_ ∷ _) = false

-- the fold that the scan computes
unfoldable pub tally : ℕ → ℕ → ℕ → (ℕ → Proc) → Tally → Tally
tally zero pp me procs t = t
tally (suc n) pp me procs t =
    tally n (pp + 1) me procs (if (procs pp).parent == me then tally_child pp (procs pp) t else t)

module _ (services : Services) where
  open services use {World}

  -- The scan changes nothing, and all locks that it takes are released.
  pub waitall_scan_lem :
      (n pp : ℕ) (t : Tally) (k : Kernel World)
      → ((j : ℕ) → k.locks j ≡ false)
      → waitall_scan services n pp t k ≡ ok (tally n pp k.current k.procs t) k
  unfolding waitall_scan tally
  waitall_scan_lem zero pp t k h = refl
  waitall_scan_lem (suc n) pp t k h =
      rw
        (
          acquire-held k pp (h pp),
          release-then
              (λ _.
                waitall_scan services n (pp + 1)
                  (if (k.procs pp).parent == k.current then tally_child pp (k.procs pp) t else t))
              k pp (h pp),
        )
        (waitall_scan_lem n (pp + 1) _ k h)

-- storing a value behind the part in use makes it the last of the part in use
slice_push : (f : ℕ → ℕ) (n v : ℕ) → slice (update f n v) 0 (n + 1) ≡ slice f 0 n ++ (v ∷ [])
slice_push f n v =
    let e : n + 1 ≡ suc n = omega arith in
    rw (
      e,
      slice-snoc (update f n v) 0 n n (omega arith),
      slice-update f 0 n n v (omega arith),
      ==_self n,
    )

and_left : (a b : Bool) → (a && b) ≡ true → a ≡ true
and_left a b h = ground arith

and_right : (a b : Bool) → (a && b) ≡ true → b ≡ true
and_right a b h = ground arith

module _ (me : ℕ) (procs : ℕ → Proc) where
  pub count-tally :
      (n pp : ℕ) (t : Tally)
      → (tally n pp me procs t).count ≡ t.count + length (children n pp me procs)
  unfolding tally children tally_child
  count-tally zero pp t = omega arith
  count-tally (suc n) pp t =
      ground (arith, count-tally n (pp + 1) (tally_child pp (procs pp) t), count-tally n (pp + 1) t)

  pub all_done-tally :
      (n pp : ℕ) (t : Tally)
      → (tally n pp me procs t).all_done
        ≡ (t.all_done && all_zombies (children n pp me procs) procs)
  unfolding tally children tally_child all_zombies
  all_done-tally zero pp t = ground arith
  all_done-tally (suc n) pp t =
      ground (
        arith,
        all_done-tally n (pp + 1) (tally_child pp (procs pp) t),
        all_done-tally n (pp + 1) t,
      )

  pub found_child-tally :
      (n pp : ℕ) (t : Tally)
      → (tally n pp me procs t).found_child
        ≡ (t.found_child || not (is_empty (children n pp me procs)))
  unfolding tally children tally_child is_empty
  found_child-tally zero pp t = ground arith
  found_child-tally (suc n) pp t = ground (
    arith,
    found_child-tally n (pp + 1) (tally_child pp (procs pp) t),
    found_child-tally n (pp + 1) t,
  )

  tally_zombie :
      (pp : ℕ) (q : Proc) (t : Tally)
      → is_zombie q.state ≡ true
      → ((tally_child pp q t).to_free ≡ t.to_free ++ (pp ∷ []))
        × (slice (tally_child pp q t).statuses 0 (tally_child pp q t).count
            ≡ slice t.statuses 0 t.count ++ (q.xstate ∷ []))
  unfolding tally_child
  tally_zombie pp q t h = rw h (refl, slice_push t.statuses t.count q.xstate)

  -- If all children are zombies, the scan appends them to `to_free` and their exit statuses to the
  -- part of `statuses_local` that is in use.
  pub zombies-tally :
      (n pp : ℕ) (t : Tally)
      → all_zombies (children n pp me procs) procs ≡ true
      → ((tally n pp me procs t).to_free ≡ t.to_free ++ children n pp me procs)
        × (slice (tally n pp me procs t).statuses 0 (tally n pp me procs t).count
            ≡ slice t.statuses 0 t.count ++ map (λ p. (procs p).xstate) (children n pp me procs))
  unfolding tally children all_zombies
  zombies-tally zero pp t h = (rw append-nil, rw append-nil)
  zombies-tally (suc n) pp t h = elim (Bool-cases ((procs pp).parent == me)) [
    | inr other ↦ rw (other, tally) (zombies-tally n (pp + 1) t (rw other at h))
    | inl child ↦
        let both = rw child at h in
        let now = tally_zombie pp (procs pp) t (and_left _ _ both) in
        let later = zombies-tally n (pp + 1) (tally_child pp (procs pp) t) (and_right _ _ both) in
        rw (child, tally)
          (
            later.0 ∙ rw (now.0) (append_assoc t.to_free (pp ∷ []) (children n (pp + 1) me procs)),
            later.1
                ∙ rw (now.1) (append_assoc (slice t.statuses 0 t.count) ((procs pp).xstate ∷ []) _),
          )
  ]
