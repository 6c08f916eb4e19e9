-- ===== src/Proc/Alloc.antt =====
-- `allocpid`, `freeproc` and `allocproc` of kernel/proc.c.
pub mod Slots
use os2025_assignment.Base.{
  ℕ, zero, suc, ◌+◌, Bool, Option, none, some, replicate, ◌==◌, ◌/=◌, if◌then◌else◌, update,
}
use os2025_assignment.Machine.{Cmd, Void, ok, pure, gets, modify, when, and_then, ◌>>=◌, ◌>>◌}
use os2025_assignment.Proc.{
  unused, used, is_unused, Trapframe, Proc, nproc, first_proc, pgsize, Services, Kernel, acquire,
  release, acquire_pid, release_pid, get_proc, set_proc, call, effect,
}

-- what `kalloc` leaves in a page: the word 0x0505050505050505, 36 times
abbrev pub junk : Trapframe
junk = record { a0 = 0x0505050505050505; others = replicate 35 0x0505050505050505 }

module _ {W : Type 0} where
  unfoldable pub allocpid : Cmd (Kernel W) ℕ
  allocpid = do
    acquire_pid
    pid ← gets (λ k. k.nextpid)
    modify (λ k. record k { nextpid = k.nextpid + 1 })
    release_pid
    pure pid

-- the fields that `freeproc` resets
abbrev pub cleared : Proc → Proc
cleared p = record p {
  trapframe = 0;
  pagetable = 0;
  sz = 0;
  pid = 0;
  parent = 0;
  name = update p.name 0 0;
  chan = 0;
  killed = 0;
  xstate = 0;
  state = unused;
}

module _ (services : Services) where
  open services use {World, kalloc, kfree, proc_pagetable, proc_freepagetable, forkret}

  unfoldable pub freeproc : ℕ → Cmd (Kernel World) Void
  freeproc i = do
    p ← get_proc i
    when (p.trapframe /= 0) (effect (kfree p.trapframe))
    when (p.pagetable /= 0) (effect (proc_freepagetable p.pagetable p.sz))
    set_proc i cleared

  -- from the label `found` on
  unfoldable pub found : ℕ → Cmd (Kernel World) (Option ℕ)
  found i = do
    pid ← allocpid
    set_proc i (λ p. record p { pid = pid; state = used })
    page ← call kalloc
    set_proc i (λ p. record p { trapframe = page; frame = if page == 0 then p.frame else junk })
    if page == 0 then (do freeproc i; release i; pure none) else do
      pagetable ← call (proc_pagetable page)
      set_proc i (λ p. record p { pagetable = pagetable })
      if pagetable == 0 then (do freeproc i; release i; pure none) else do
        set_proc i λ p. record p {
          context = record { ra = forkret; sp = p.kstack + pgsize; saved = replicate 12 0 };
        }
        pure (some i)

  -- the scan, with `n` slots left from `p` on
  unfoldable pub allocproc_loop : ℕ → ℕ → Cmd (Kernel World) (Option ℕ)
  allocproc_loop zero i = pure none
  allocproc_loop (suc n) i = do
    acquire i
    p ← get_proc i
    if is_unused p.state then found i else (do release i; allocproc_loop n (i + 1))

  unfoldable pub allocproc : Cmd (Kernel World) (Option ℕ)
  allocproc = allocproc_loop nproc first_proc
