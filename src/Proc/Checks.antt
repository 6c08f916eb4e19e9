-- ===== src/Proc/Checks.antt =====
-- A machine on which the theorems about kernel/proc.c are applied: pages are numbers that only
-- grow, and the copy of a memory works or fails as `copies` says.
use os2025_assignment.Base.{
  ℕ, ◌+◌, ◌≡◌, refl, Bool, true, false, none, some, [], arith, update, map_range,
}
use os2025_assignment.Machine.{ok}
use os2025_assignment.File.{File, unset}
use os2025_assignment.Proc.{
  unused, sleeping, running, zombie, Proc, nproc, first_proc, Services, Kernel,
}
use os2025_assignment.Proc.Locks.{held}
use os2025_assignment.Proc.Alloc.Slots.{find_unused}
use os2025_assignment.Proc.Signal.{wakeup, kill}
use os2025_assignment.Proc.Signal.Pointwise.{woken_except, wakeup_lem, find_pid, victim, kill_lem}
use os2025_assignment.Proc.Fork.{fork, forkn}
use os2025_assignment.Proc.Fork.Leak.{CopyFails, given_back, forkn-leaks_lock}
use os2025_assignment.Proc.Fork.Child.{CopyWorks, forked, fork-copy_works}
use os2025_assignment.Proc.Wait.{returned}
use os2025_assignment.Proc.Waitall.{waitall}
use os2025_assignment.Proc.Waitall.Count.{children, all_zombies, is_empty}
use os2025_assignment.Proc.Waitall.Result.{waitall-all, waitall-killed, reported}

record Memory : Type 0 where
  next : ℕ
  copies : Bool

abbrev page_after : Memory → Memory
page_after w = record w { next = w.next + 4096 }

abbrev services : Services
services = record {
  World = Memory;
  kalloc = λ w. (w.next, page_after w);
  kfree = λ _ w. w;
  proc_pagetable = λ _ w. (w.next, page_after w);
  proc_freepagetable = λ _ _ w. w;
  uvmcopy = λ _ _ _ w. (w.copies, w);
  copyout = λ _ _ _ w. (true, w);
  idup = λ _ w. w;
  begin_op = λ w. w;
  iput = λ _ w. w;
  end_op = λ w. w;
  close_last = λ _ w. w;
  forkret = 9;
}

abbrev blank : Proc
blank = record {
  state = unused;
  chan = 0;
  killed = 0;
  xstate = 0;
  pid = 0;
  parent = 0;
  kstack = 0;
  sz = 0;
  pagetable = 0;
  trapframe = 0;
  frame = record { a0 = 0; others = [] };
  context = record { ra = 0; sp = 0; saved = [] };
  ofile = λ _. 0;
  cwd = 0;
  name = λ _. 0;
  exit_msg = λ _. 0;
}

abbrev no_file : File
no_file = record {
  kind = unset;
  ref = 0;
  readable = false;
  writable = false;
  pipe_at = 0;
  ip = 0;
  off = 0;
  major = 0;
}

-- Process 1 runs alone.
abbrev alone : Bool → Kernel Memory
alone copies = record {
  procs = update (λ _. blank) 1 (record blank { state = running; pid = 7; pagetable = 5 });
  locks = λ _. false;
  wait_lock = false;
  pid_lock = false;
  noff = 0;
  current = 1;
  initproc = 1;
  nextpid = 8;
  ftable = λ _. no_file;
  world = record { next = 4096; copies = copies };
}

-- It has two children, which have exited.
abbrev bereaved : Kernel Memory
bereaved = record (alone true) {
  procs =
      update
        (update (alone true).procs 3
          (record blank { state = zombie; pid = 8; parent = 1; xstate = 42 }))
        5 (record blank { state = zombie; pid = 9; parent = 1; xstate = 43 });
}

-- It has a child that sleeps on channel 77, and is killed itself.
abbrev dying : Kernel Memory
dying = record (alone true) {
  procs =
      update (update (alone true).procs 1 (record blank { state = running; pid = 7; killed = 1 })) 2
        (record blank { state = sleeping; pid = 8; parent = 1; chan = 77 });
}

wakeup_lem_example :
    wakeup 77 dying
    ≡ ok tt (record dying { procs = map_range (woken_except 1 77) first_proc nproc dying.procs })
wakeup_lem_example = wakeup_lem 77 dying (λ _. refl)

kill_lem_example : kill 8 dying ≡ elim (find_pid nproc first_proc 8 dying.procs) [
  | none ↦ ok false dying
  | some j ↦ ok true (record dying { procs = update dying.procs j (victim (dying.procs j)) })
]
kill_lem_example = kill_lem 8 dying (λ _. refl)

fails :
    CopyFails services
      (alone false)
      2
      4096
      8192
      (record { next = 8192; copies = false })
      (record { next = 12288; copies = false })
      (record { next = 12288; copies = false })
unfolding find_unused
fails = record {
  free = λ _. refl;
  pid_free = refl;
  slot = refl;
  other = omega arith;
  page_ok = refl;
  page_ne = omega arith;
  table_ok = refl;
  table_ne = omega arith;
  no_copy = refl;
}

works :
    CopyWorks services
      (alone true)
      2
      4096
      8192
      (record { next = 8192; copies = true })
      (record { next = 12288; copies = true })
      (record { next = 12288; copies = true })
unfolding find_unused
works = record {
  free = λ _. refl;
  pid_free = refl;
  wait_free = refl;
  live = λ fd ne. absurd (ne refl);
  slot = refl;
  other = omega arith;
  page_ok = refl;
  page_ne = omega arith;
  table_ok = refl;
  table_ne = omega arith;
  copy = refl;
}

forkn-leaks_lock_example :
    forkn services 4 0 (alone false)
    ≡ ok none (
        held
          (given_back services (alone false) 2 4096 8192 (record { next = 12288; copies = false }))
          2)
forkn-leaks_lock_example = forkn-leaks_lock services fails 3 0 (omega arith)

fork-copy_works_example :
    fork services (alone true)
    ≡ ok
        (some 8)
        (forked services (alone true) 2 4096 8192 (record { next = 12288; copies = true }))
fork-copy_works_example = fork-copy_works services works

waitall-all_example :
    waitall services 100 200 [] bereaved
    ≡ ok (returned (some 0)) (reported services 100 200 bereaved)
unfolding children is_empty all_zombies
waitall-all_example = waitall-all services bereaved (λ _. refl) refl 100 200 [] refl refl

waitall-killed_example : waitall services 100 200 [] dying ≡ ok (returned none) dying
unfolding children is_empty all_zombies
waitall-killed_example =
    waitall-killed services dying (λ _. refl) refl 100 200 [] refl refl (omega arith)

-- the same machine with no page left, and with a page and no page table
abbrev no_pages : Services
no_pages = record services { kalloc = λ w. (0, w) }

abbrev no_tables : Services
no_tables = record services { proc_pagetable = λ _ w. (0, w) }
