-- ===== src/Proc/Wait.antt =====
-- `wait` of kernel/proc.c. It loops until a child has exited and sleeps in between: the list `away` holds what the other threads do during each sleep, and a call that is still
-- asleep at its end is `asleep`.
use os2025_assignment.Base.{
  ℕ, zero, suc, ◌+◌, Bool, true, false, not, ◌||◌, Option, none, some, List, [], ◌∷◌, ◌==◌, ◌/=◌,
  if◌then◌else◌, slice,
}
use os2025_assignment.Machine.{Cmd, Void, pure, fail, when, ◌>>=◌, ◌>>◌}
use os2025_assignment.Str.{strlen}
use os2025_assignment.Proc.{
  is_zombie, nproc, first_proc, Services, Kernel, acquire, release, acquire_wait, release_wait,
  myproc, get_proc, call, int_bytes,
}
use os2025_assignment.Proc.Alloc.{freeproc}
use os2025_assignment.Proc.Signal.{killed}
use os2025_assignment.Proc.Sched.{Switch, sleep}

-- `returned none` is the return value -1.
pub data Outcome : Type 0 where
  returned : Option ℕ → Outcome
  asleep : Outcome

-- How a scan ends: with the result to return, or with `havekids`.
pub data Scan : Type 0 where
  reaped : Option ℕ → Scan
  scanned : Bool → Scan

module _ (services : Services) where
  open services use {World, copyout}

  -- `copyout` of the exit message and its zero byte, whose result is not looked at. A message with
  -- no zero among its 32 bytes would be read past its end; it fails here.
  unfoldable pub copy_msg : ℕ → ℕ → Cmd (Kernel World) Void
  copy_msg msg pp = do
    me ← myproc
    p ← get_proc me
    q ← get_proc pp
    elim (strlen 32 q.exit_msg) [
      | none ↦ fail
      | some n ↦ do _ ← call (copyout p.pagetable msg (slice q.exit_msg 0 (n + 1))); pure tt
    ]

  -- `pp` is a zombie child, and its lock is held.
  unfoldable pub reap : ℕ → ℕ → ℕ → Cmd (Kernel World) (Option ℕ)
  reap addr msg pp = do
    when (msg /= 0) (copy_msg msg pp)
    me ← myproc
    p ← get_proc me
    q ← get_proc pp
    copied ← (if addr /= 0 then call (copyout p.pagetable addr (int_bytes q.xstate)) else pure true)
    if not copied
        then (do release pp; release_wait; pure none)
        else do freeproc services pp; release pp; release_wait; pure (some q.pid)

  unfoldable pub wait_scan : ℕ → ℕ → ℕ → ℕ → Bool → Cmd (Kernel World) Scan
  wait_scan zero pp addr msg havekids = pure (scanned havekids)
  wait_scan (suc n) pp addr msg havekids = do
    me ← myproc
    q ← get_proc pp
    if not (q.parent == me) then wait_scan n (pp + 1) addr msg havekids else do
      acquire pp
      q ← get_proc pp
      if is_zombie q.state
          then (do r ← reap addr msg pp; pure (reaped r))
          else do release pp; wait_scan n (pp + 1) addr msg true

  -- One round of the loop up to `sleep`, with `wait_lock` held: `none` means that it has to sleep.
  unfoldable pub wait_pass : ℕ → ℕ → Cmd (Kernel World) (Option (Option ℕ))
  wait_pass addr msg = do
    me ← myproc
    scan ← wait_scan nproc first_proc addr msg false
    elim scan [
      | reaped r ↦ pure (some r)
      | scanned havekids ↦ do
        k ← killed me
        if not havekids || (k /= 0) then (do release_wait; pure (some none)) else pure none
    ]

  unfoldable pub wait_loop : ℕ → ℕ → List (Switch World) → Cmd (Kernel World) Outcome
  wait_loop addr msg [] = do
    r ← wait_pass addr msg
    elim r [ none ↦ pure asleep | some r ↦ pure (returned r) ]
  wait_loop addr msg (others ∷ away) = do
    r ← wait_pass addr msg
    elim r [
      | none ↦ do me ← myproc; sleep me release_wait acquire_wait others; wait_loop addr msg away
      | some r ↦ pure (returned r)
    ]

  unfoldable pub wait : ℕ → ℕ → List (Switch World) → Cmd (Kernel World) Outcome
  wait addr msg away = acquire_wait >> wait_loop addr msg away
