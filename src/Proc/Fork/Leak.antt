-- ===== src/Proc/Fork/Leak.antt =====
-- What `fork` and `forkn` do when `uvmcopy` fails for a new child.
use os2025_assignment.Base.{
  ℕ, suc, ◌+◌, ◌≤◌, ◌≡◌, ◌≢◌, false, ◌||◌, none, some, arith, ==_self, ==_ne, /=_ne, ltb, update,
  update_twice,
}
use os2025_assignment.Machine.{ok, panic, ◌>>◌}
use os2025_assignment.Proc.{nproc, first_proc, Services, Kernel}
use os2025_assignment.Proc.Locks.{held, acquire-held, release-held}
use os2025_assignment.Proc.Alloc.{cleared}
use os2025_assignment.Proc.Alloc.Slots.{find_unused, fresh, freeproc_lem, allocproc_lem, found-some}
use os2025_assignment.Proc.Sched.{Switch, yield, sched, sched_checks}
use os2025_assignment.Proc.Fork.{fork, make_kids, undo, forkn}

-- the tests of `forkn` on the number of children
pub in_range : (m : ℕ) → suc m ≤ 16 → (ltb (suc m) 1 || ltb 16 (suc m)) ≡ false
in_range m h = ground arith

module _ {W : Type 0} where
  -- `sched` refuses to switch while another lock than the process's own is held.
  pub yield-panics :
      (away : Switch W) (k : Kernel W)
      → k.locks k.current ≡ false
      → k.noff ≢ 0
      → yield away k ≡ panic
  unfolding yield sched sched_checks
  yield-panics away k h z =
      rw (acquire-held k k.current h, ==_self k.current, /=_ne (k.noff + 1) 1 (omega arith))

module _ (services : Services) where
  open services use {World, kalloc, kfree, proc_pagetable, proc_freepagetable, uvmcopy}

  -- In the state `k` a child can be allocated in the slot `np`, and its memory cannot be copied.
  pub record CopyFails (k : Kernel World) (np page pagetable : ℕ) (w1 w2 w3 : World) : Type 0 where
    pub free : (j : ℕ) → k.locks j ≡ false
    pub pid_free : k.pid_lock ≡ false
    pub slot : find_unused nproc first_proc k.procs ≡ some np
    pub other : k.current ≢ np
    pub page_ok : kalloc k.world ≡ (page, w1)
    pub page_ne : page ≢ 0
    pub table_ok : proc_pagetable page w1 ≡ (pagetable, w2)
    pub table_ne : pagetable ≢ 0
    pub no_copy :
        uvmcopy (k.procs k.current).pagetable pagetable (k.procs k.current).sz w2 ≡ (false, w3)

  -- The state in which the slot is unused again; only the process number is gone.
  abbrev pub given_back : Kernel World → ℕ → ℕ → ℕ → World → Kernel World
  given_back k np page pagetable w3 = record k {
    nextpid = k.nextpid + 1;
    procs = update k.procs np (cleared (fresh services k.nextpid page pagetable (k.procs np)));
    world = proc_freepagetable pagetable (k.procs np).sz (kfree page w3);
  }

  module _ {k : Kernel World} {np page pagetable : ℕ} {w1 w2 w3 : World}
      (c : CopyFails k np page pagetable w1 w2 w3) where
    -- When the memory cannot be copied, `fork` returns -1, frees the slot and holds no lock that it
    -- did not hold before.
    pub fork-copy_fails : fork services k ≡ ok none (given_back k np page pagetable w3)
    unfolding fork
    fork-copy_fails = rw (
      allocproc_lem services k c.free,
      c.slot,
      found-some services np page pagetable w1 w2 (held k np) c.pid_free c.page_ok c.page_ne
          c.table_ok c.table_ne,
      ==_ne k.current np c.other,
      ==_self np,
      c.no_copy,
      freeproc_lem services,
      ==_self np,
      /=_ne page 0 c.page_ne,
      /=_ne pagetable 0 c.table_ne,
      update_twice k.procs np (fresh services k.nextpid page pagetable (k.procs np))
          (cleared (fresh services k.nextpid page pagetable (k.procs np))),
      release-held (given_back k np page pagetable w3) np (c.free np),
    )

    -- When the memory cannot be copied for the first child, `forkn` returns -1 and frees the slot as
    -- `fork` does, but it returns with the slot's lock held.
    pub forkn-leaks_lock :
        (m pids : ℕ)
        → suc m ≤ 16
        → forkn services (suc m) pids k ≡ ok none (held (given_back k np page pagetable w3) np)
    unfolding forkn make_kids undo
    forkn-leaks_lock m pids h = rw (
      in_range m h,
      allocproc_lem services k c.free,
      c.slot,
      found-some services np page pagetable w1 w2 (held k np) c.pid_free c.page_ok c.page_ne
          c.table_ok c.table_ne,
      ==_ne k.current np c.other,
      ==_self np,
      c.no_copy,
      freeproc_lem services,
      ==_self np,
      /=_ne page 0 c.page_ne,
      /=_ne pagetable 0 c.table_ne,
      update_twice k.procs np (fresh services k.nextpid page pagetable (k.procs np))
          (cleared (fresh services k.nextpid page pagetable (k.procs np))),
    )

    -- The caller of that `forkn`, if it held no lock before, panics when it next gives up the CPU.
    pub forkn-yield_panics :
        (m pids : ℕ) (away : Switch World)
        → suc m ≤ 16
        → k.noff ≡ 0
        → (forkn services (suc m) pids >> yield away) k ≡ panic
    forkn-yield_panics m pids away h z = rw (forkn-leaks_lock m pids h) (
        yield-panics away (held (given_back k np page pagetable w3) np)
          (rw (==_ne k.current np c.other) (c.free k.current)) (omega arith))
