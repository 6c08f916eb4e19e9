-- ===== src/Proc/Waitall/Result.antt =====
-- What a call of `waitall` returns, frees and reports.
use os2025_assignment.Base.{
  ℕ, zero, suc, ◌+◌, ◌≡◌, refl, ◌∙◌, ◌≢◌, true, false, inl, inr, ◌&&◌, List, [], ◌∷◌, map, arith,
  ◌==◌, ◌/=◌, /=_ne, if◌then◌else◌, Bool-cases, length, update, within, some, none,
}
use native.Mathlib.Nat.{zero-add}
use native.Mathlib.Decide.{ℕ_discrete}
use os2025_assignment.Machine.{ok}
use os2025_assignment.Proc.{Proc, nproc, first_proc, Services, Kernel}
use os2025_assignment.Proc.Locks.{
  held, waiting, acquire-held, release-then, acquire_wait-ok, release_wait-ok,
}
use os2025_assignment.Proc.Alloc.{cleared}
use os2025_assignment.Proc.Alloc.Slots.{freed, freeproc_lem}
use os2025_assignment.Proc.Signal.Pointwise.{killed_lem}
use os2025_assignment.Proc.Fork.{ints}
use os2025_assignment.Proc.Sched.{Switch}
use os2025_assignment.Proc.Wait.{returned}
use os2025_assignment.Proc.Waitall.{
  Tally, result, sleeps, waitall_scan, free_all, copy_ints, waitall_pass, waitall_loop, waitall,
}
use os2025_assignment.Proc.Waitall.Count.{
  children, all_zombies, is_empty, tally, waitall_scan_lem, count-tally, all_done-tally,
  found_child-tally, zombies-tally,
}

-- the table after the entries of the list are freed in turn
unfoldable pub freed_procs : List ℕ → (ℕ → Proc) → ℕ → Proc
freed_procs [] procs = procs
freed_procs (c ∷ cs) procs = freed_procs cs (update procs c (cleared (procs c)))

-- Freeing the children of `me` clears their entries and no others.
pub freed_procs-children :
    (me n pp : ℕ) (old procs : ℕ → Proc) (j : ℕ)
    → freed_procs (children n pp me old) procs j
      ≡ (if within pp n j && ((old j).parent == me) then cleared (procs j) else procs j)
unfolding freed_procs children
freed_procs-children me zero pp old procs j = ground arith
freed_procs-children me (suc n) pp old procs j = elim (Bool-cases ((old pp).parent == me)) [
  | inl child ↦ rw child (
      freed_procs-children me n (pp + 1) old (update procs pp (cleared (procs pp))) j ∙ first child)
  | inr other ↦ rw other (freed_procs-children me n (pp + 1) old procs j ∙ skip other)
]
  where
    first :
        ((old pp).parent == me) ≡ true
        → (if within (pp + 1) n j && ((old j).parent == me)
            then cleared (update procs pp (cleared (procs pp)) j)
            else update procs pp (cleared (procs pp)) j)
          ≡ (if within pp (suc n) j && ((old j).parent == me) then cleared (procs j) else procs j)
    first e = elim (ℕ_discrete j pp) [ yes q ↦ rw (q, e) (ground arith) | no q ↦ ground arith ]

    skip :
        ((old pp).parent == me) ≡ false
        → (if within (pp + 1) n j && ((old j).parent == me) then cleared (procs j) else procs j)
          ≡ (if within pp (suc n) j && ((old j).parent == me) then cleared (procs j) else procs j)
    skip e = elim (ℕ_discrete j pp) [ yes q ↦ rw (q, e) (ground arith) | no q ↦ ground arith ]

module _ (services : Services) where
  open services use {World, copyout}

  -- the world after the entries of the list are freed in turn
  unfoldable pub freed_world : List ℕ → (ℕ → Proc) → World → World
  freed_world [] procs w = w
  freed_world (c ∷ cs) procs w =
      freed_world cs (update procs c (cleared (procs c))) (freed services (procs c) w)

  pub free_all_lem :
      (cs : List ℕ) (k : Kernel World)
      → ((j : ℕ) → k.locks j ≡ false)
      → free_all services cs k
        ≡ ok tt
            (record k { procs = freed_procs cs k.procs; world = freed_world cs k.procs k.world })
  unfolding free_all freed_procs freed_world
  free_all_lem [] k h = refl
  free_all_lem (c ∷ cs) k h =
      let k' = record k {
        procs = update k.procs c (cleared (k.procs c));
        world = freed services (k.procs c) k.world;
      } in
      rw
        (
          acquire-held k c (h c),
          freeproc_lem services c (held k c),
          release-then (λ _. free_all services cs) k' c (h c),
        )
        (free_all_lem cs k' h)

  -- the world after `if(addr) copyout(...)` of some values to the user's memory
  abbrev pub copied : ℕ → ℕ → List ℕ → World → World
  copied pagetable addr values w =
      if addr /= 0 then (copyout pagetable addr (ints values) w).1 else w

  copy_ints_lem :
      (addr : ℕ) (values : List ℕ) (k : Kernel World)
      → copy_ints services addr values k
        ≡ ok tt (record k { world = copied (k.procs k.current).pagetable addr values k.world })
  unfolding copy_ints
  copy_ints_lem addr values k = elim (Bool-cases (addr /= 0)) [ inl e ↦ rw e | inr e ↦ rw e ]

  -- the locals at the start of a pass
  abbrev start : (ℕ → ℕ) → Tally
  start statuses = record {
    all_done = true;
    count = 0;
    statuses = statuses;
    to_free = [];
    found_child = false;
  }

  -- the children of the running process
  abbrev pub kids : Kernel World → List ℕ
  kids k = children nproc first_proc k.current k.procs

  -- the state after the children are freed
  abbrev pub after : Kernel World → Kernel World
  after k = record k {
    procs = freed_procs (kids k) k.procs;
    world = freed_world (kids k) k.procs k.world;
  }

  -- the state after the count and the exit statuses are stored too
  abbrev pub reported : ℕ → ℕ → Kernel World → Kernel World
  reported n_addr statuses_addr k = record (after k) {
    world =
        copied ((after k).procs k.current).pagetable statuses_addr
          (map (λ p. (k.procs p).xstate) (kids k))
          (copied ((after k).procs k.current).pagetable n_addr (length (kids k) ∷ [])
            (after k).world);
  }

  module _ (k : Kernel World) (free : (j : ℕ) → k.locks j ≡ false)
      (open_lock : k.wait_lock ≡ false) where
    scan :
        (statuses : ℕ → ℕ)
        → waitall_scan services nproc first_proc (start statuses) (waiting k)
          ≡ ok (tally nproc first_proc k.current k.procs (start statuses)) (waiting k)
    scan statuses = waitall_scan_lem services nproc first_proc (start statuses) (waiting k) free

    pass_none :
        (n_addr statuses_addr : ℕ) (statuses : ℕ → ℕ)
        → is_empty (kids k) ≡ true
        → waitall_pass services n_addr statuses_addr statuses (waiting k)
          ≡ ok
              (result (some 0))
              (record k { world = copied (k.procs k.current).pagetable n_addr (0 ∷ []) k.world })
    unfolding waitall_pass
    pass_none n_addr statuses_addr statuses h = rw (
      scan statuses,
      found_child-tally k.current k.procs nproc first_proc (start statuses),
      h,
      release_wait-ok k open_lock,
      copy_ints_lem,
    )

    pass_all :
        (n_addr statuses_addr : ℕ) (statuses : ℕ → ℕ)
        → is_empty (kids k) ≡ false
        → all_zombies (kids k) k.procs ≡ true
        → waitall_pass services n_addr statuses_addr statuses (waiting k)
          ≡ ok (result (some 0)) (reported n_addr statuses_addr k)
    unfolding waitall_pass
    pass_all n_addr statuses_addr statuses h z = rw (
      scan statuses,
      found_child-tally k.current k.procs nproc first_proc (start statuses),
      h,
      all_done-tally k.current k.procs nproc first_proc (start statuses),
      z,
      (zombies-tally k.current k.procs nproc first_proc (start statuses) z).0,
      free_all_lem (kids k) (waiting k) free,
      (zombies-tally k.current k.procs nproc first_proc (start statuses) z).1,
      count-tally k.current k.procs nproc first_proc (start statuses),
      zero-add,
      release_wait-ok (after k) open_lock,
      copy_ints_lem,
      copy_ints_lem,
    )

    pass_busy :
        (n_addr statuses_addr : ℕ) (statuses : ℕ → ℕ)
        → is_empty (kids k) ≡ false
        → all_zombies (kids k) k.procs ≡ false
        → waitall_pass services n_addr statuses_addr statuses (waiting k) ≡ (
            if (k.procs k.current).killed /= 0
            then ok (result none) k
            else ok
                (sleeps (tally nproc first_proc k.current k.procs (start statuses)).statuses)
                (waiting k))
    unfolding waitall_pass
    pass_busy n_addr statuses_addr statuses h z =
        rw
          (
            scan statuses,
            found_child-tally k.current k.procs nproc first_proc (start statuses),
            h,
            all_done-tally k.current k.procs nproc first_proc (start statuses),
            z,
            killed_lem k.current (waiting k) (free k.current),
          )
          (elim (Bool-cases ((k.procs k.current).killed /= 0)) [
            | inl dead ↦ rw (dead, release_wait-ok k open_lock)
            | inr alive ↦ rw alive
          ])

    -- With no child, `waitall` returns 0 at once: it stores the count 0 and changes nothing else.
    pub waitall-none :
        (n_addr statuses_addr : ℕ) (away : List (Switch World))
        → is_empty (kids k) ≡ true
        → waitall services n_addr statuses_addr away k
          ≡ ok
              (returned (some 0))
              (record k { world = copied (k.procs k.current).pagetable n_addr (0 ∷ []) k.world })
    unfolding waitall waitall_loop
    waitall-none n_addr statuses_addr [] h =
        rw (acquire_wait-ok k open_lock, pass_none n_addr statuses_addr (λ _. 0) h)
    waitall-none n_addr statuses_addr (others ∷ away) h =
        rw (acquire_wait-ok k open_lock, pass_none n_addr statuses_addr (λ _. 0) h)

    -- When there are children and all of them are zombies, `waitall` returns 0 without sleeping. It
    -- frees exactly the children, stores their number, and stores their exit statuses in the order
    -- of the process table. Every lock is as it was.
    pub waitall-all :
        (n_addr statuses_addr : ℕ) (away : List (Switch World))
        → is_empty (kids k) ≡ false
        → all_zombies (kids k) k.procs ≡ true
        → waitall services n_addr statuses_addr away k
          ≡ ok (returned (some 0)) (reported n_addr statuses_addr k)
    unfolding waitall waitall_loop
    waitall-all n_addr statuses_addr [] h z =
        rw (acquire_wait-ok k open_lock, pass_all n_addr statuses_addr (λ _. 0) h z)
    waitall-all n_addr statuses_addr (others ∷ away) h z =
        rw (acquire_wait-ok k open_lock, pass_all n_addr statuses_addr (λ _. 0) h z)

    -- While a child is left that is no zombie, a killed caller gets -1 and changes nothing.
    pub waitall-killed :
        (n_addr statuses_addr : ℕ) (away : List (Switch World))
        → is_empty (kids k) ≡ false
        → all_zombies (kids k) k.procs ≡ false
        → (k.procs k.current).killed ≢ 0
        → waitall services n_addr statuses_addr away k ≡ ok (returned none) k
    unfolding waitall waitall_loop
    waitall-killed n_addr statuses_addr [] h z d =
        rw (acquire_wait-ok k open_lock, pass_busy n_addr statuses_addr (λ _. 0) h z, /=_ne _ 0 d)
    waitall-killed n_addr statuses_addr (others ∷ away) h z d =
        rw (acquire_wait-ok k open_lock, pass_busy n_addr statuses_addr (λ _. 0) h z, /=_ne _ 0 d)
