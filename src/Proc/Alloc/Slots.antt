-- ===== src/Proc/Alloc/Slots.antt =====
-- Which slot of the process table `allocproc` takes, and what `freeproc` and it leave there.
use os2025_assignment.Base.{
  ℕ, zero, suc, ◌+◌, ◌≡◌, refl, ◌≢◌, false, inl, inr, Option, none, some, replicate, ◌/=◌, ==_self,
  ==_ne, /=_ne, ltb_pos, add_sub_one, if◌then◌else◌, Bool-cases, update, update_twice,
}
use os2025_assignment.Machine.{ok, pure}
use os2025_assignment.Proc.{
  used, is_unused, Proc, nproc, first_proc, pgsize, Services, Kernel, acquire_pid, release_pid,
}
use os2025_assignment.Proc.Locks.{held, acquire-held, release-then}
use os2025_assignment.Proc.Alloc.{
  junk, allocpid, cleared, freeproc, found, allocproc_loop, allocproc,
}

-- the first of the `n` entries from `p` on that is not in use
unfoldable pub find_unused : ℕ → ℕ → (ℕ → Proc) → Option ℕ
find_unused zero p procs = none
find_unused (suc n) p procs =
    if is_unused (procs p).state then some p else find_unused n (p + 1) procs

module _ {W : Type 0} where
  pub allocpid_lem :
      (k : Kernel W)
      → k.pid_lock ≡ false
      → allocpid k ≡ ok k.nextpid (record k { nextpid = k.nextpid + 1 })
  unfolding allocpid acquire_pid release_pid
  allocpid_lem k h = rw (h, ltb_pos, add_sub_one)

module _ (services : Services) where
  open services use {World, kalloc, kfree, proc_pagetable, proc_freepagetable, forkret}

  -- the world after the two calls of `freeproc`
  abbrev pub freed : Proc → World → World
  freed p w =
      let w' = if p.trapframe /= 0 then kfree p.trapframe w else w in
      if p.pagetable /= 0 then proc_freepagetable p.pagetable p.sz w' else w'

  -- `freeproc` gives back the trapframe's page and the page table, if there are such, and resets
  -- the entry. It touches no lock, no other entry, and neither the files nor the exit message.
  pub freeproc_lem :
      (i : ℕ) (k : Kernel World)
      → freeproc services i k
        ≡ ok tt (record k {
          procs = update k.procs i (cleared (k.procs i));
          world = freed (k.procs i) k.world;
        })
  unfolding freeproc
  freeproc_lem i k = elim (Bool-cases ((k.procs i).trapframe /= 0)) [
    | inl a ↦ elim (Bool-cases ((k.procs i).pagetable /= 0)) [
      | inl b ↦ rw (a, b)
      | inr b ↦ rw (a, b)
    ]
    | inr a ↦ elim (Bool-cases ((k.procs i).pagetable /= 0)) [
      | inl b ↦ rw (a, b)
      | inr b ↦ rw (a, b)
    ]
  ]

  allocproc_loop_lem :
      (n p : ℕ) (k : Kernel World)
      → ((j : ℕ) → k.locks j ≡ false)
      → allocproc_loop services n p k
        ≡ elim (find_unused n p k.procs) [ none ↦ ok none k | some j ↦ found services j (held k j) ]
  unfolding allocproc_loop find_unused
  allocproc_loop_lem zero p k h = refl
  allocproc_loop_lem (suc n) p k h =
      rw (acquire-held k p (h p)) (elim (Bool-cases (is_unused (k.procs p).state)) [
        | inl free ↦ rw free
        | inr taken ↦
            rw (taken, release-then (λ _. allocproc_loop services n (p + 1)) k p (h p))
              (allocproc_loop_lem n (p + 1) k h)
      ])

  -- With no lock held, `allocproc` goes on at the label `found` with the first unused entry, whose
  -- lock it then holds; if there is none it returns 0 and changes nothing.
  pub allocproc_lem :
      (k : Kernel World)
      → ((j : ℕ) → k.locks j ≡ false)
      → allocproc services k ≡ elim (find_unused nproc first_proc k.procs) [
        | none ↦ ok none k
        | some j ↦ found services j (held k j)
      ]
  unfolding allocproc
  allocproc_lem k h = allocproc_loop_lem nproc first_proc k h

  -- the entry that `found` sets up
  abbrev pub fresh : ℕ → ℕ → ℕ → Proc → Proc
  fresh pid page pagetable p = record p {
    pid = pid;
    state = used;
    trapframe = page;
    frame = junk;
    pagetable = pagetable;
    context = record { ra = forkret; sp = p.kstack + pgsize; saved = replicate 12 0 };
  }

  -- If `kalloc` and `proc_pagetable` have memory, the entry is set up with the next process number,
  -- and its lock is left as it was. Of the entry's other fields none is reset: `killed`, `ofile`
  -- and the exit message are those that it had.
  pub found-some :
      (p page pagetable : ℕ) (w w' : World) (k : Kernel World)
      → k.pid_lock ≡ false
      → kalloc k.world ≡ (page, w)
      → page ≢ 0
      → proc_pagetable page w ≡ (pagetable, w')
      → pagetable ≢ 0
      → found services p k
        ≡ ok (some p) (record k {
          nextpid = k.nextpid + 1;
          procs = update k.procs p (fresh k.nextpid page pagetable (k.procs p));
          world = w';
        })
  unfolding found
  found-some p page pagetable w w' k h a a' b b' =
      rw (allocpid_lem k h, a, ==_ne page 0 a', b, ==_ne pagetable 0 b', ==_self p)
        (simp update_twice)

  -- If there is no page, the entry is freed again and its lock released; only the process number
  -- is used up.
  pub found-no_page :
      (p : ℕ) (w : World) (k : Kernel World)
      → k.locks p ≡ false
      → k.pid_lock ≡ false
      → kalloc k.world ≡ (0, w)
      → found services p (held k p)
        ≡ ok none (record k {
          nextpid = k.nextpid + 1;
          procs = update k.procs p (cleared (k.procs p));
          world = freed (record (k.procs p) { trapframe = 0 }) w;
        })
  unfolding found
  found-no_page p w k l h a =
      rw (allocpid_lem (held k p) h, a, freeproc_lem, ==_self p)
        (simp update_twice (
          release-then (λ _. pure none)
            (record k {
              nextpid = k.nextpid + 1;
              procs = update k.procs p (cleared (k.procs p));
              world = freed (record (k.procs p) { trapframe = 0 }) w;
            })
            p l))

  -- If there is a page and no page table, the page is given back, and all else is as above.
  pub found-no_pagetable :
      (p page : ℕ) (w w' : World) (k : Kernel World)
      → k.locks p ≡ false
      → k.pid_lock ≡ false
      → kalloc k.world ≡ (page, w)
      → page ≢ 0
      → proc_pagetable page w ≡ (0, w')
      → found services p (held k p)
        ≡ ok none (record k {
          nextpid = k.nextpid + 1;
          procs = update k.procs p (cleared (record (k.procs p) { frame = junk }));
          world = kfree page w';
        })
  unfolding found
  found-no_pagetable p page w w' k l h a a' b =
      rw
        (allocpid_lem (held k p) h, a, ==_ne page 0 a', b, freeproc_lem, ==_self p, /=_ne page 0 a')
        (simp update_twice (
          release-then (λ _. pure none)
            (record k {
              nextpid = k.nextpid + 1;
              procs = update k.procs p (cleared (record (k.procs p) { frame = junk }));
              world = kfree page w';
            })
            p l))
