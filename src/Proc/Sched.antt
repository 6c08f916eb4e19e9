-- ===== src/Proc/Sched.antt =====
-- `sched`, `yield`, `sleep` and `scheduler` of kernel/proc.c. What happens between a `swtch` away
-- from a thread and the `swtch` back to it is an argument, a function on the state.
use os2025_assignment.Base.{ℕ, zero, suc, ◌+◌, not, ◌/=◌}
use os2025_assignment.Machine.{Cmd, Void, pure, fail, gets, modify, when, ◌>>=◌, ◌>>◌}
use os2025_assignment.Proc.{
  sleeping, runnable, running, is_runnable, is_running, nproc, first_proc, Kernel, acquire, release,
  myproc, get_proc, set_proc,
}

abbrev pub Switch : Type 0 → Type 0
Switch W = Kernel W → Kernel W

module _ {W : Type 0} where
  -- The four tests of `sched`, the last of which (interrupts are on) is not modelled: `noff` is 1
  -- here, and interrupts are off while it is not 0.
  unfoldable pub sched_checks : Cmd (Kernel W) Void
  sched_checks = do
    me ← myproc
    mine ← gets (λ k. k.locks me)
    when (not mine) fail
    noff ← gets (λ k. k.noff)
    when (noff /= 1) fail
    p ← get_proc me
    when (is_running p.state) fail

  unfoldable pub sched : Switch W → Cmd (Kernel W) Void
  sched away = do sched_checks; modify away

  unfoldable pub yield : Switch W → Cmd (Kernel W) Void
  yield away = do
    me ← myproc
    acquire me
    set_proc me λ p. record p { state = runnable }
    sched away
    release me

  -- `unlock` and `lock` are `release(lk)` and `acquire(lk)`.
  unfoldable pub sleep : ℕ → (unlock lock : Cmd (Kernel W) Void) → Switch W → Cmd (Kernel W) Void
  sleep chan unlock lock away = do
    me ← myproc
    acquire me
    unlock
    set_proc me λ p. record p { chan = chan; state = sleeping }
    sched away
    set_proc me λ p. record p { chan = 0 }
    release me
    lock

  -- One round of the loop over the table. `run p` is what `p` does until it switches back.
  unfoldable pub schedule_one : (ℕ → Switch W) → ℕ → Cmd (Kernel W) Void
  schedule_one run p = do
    acquire p
    q ← get_proc p
    when (is_runnable q.state) (do
      set_proc p λ q. record q { state = running }
      modify λ k. record k { current = p }
      modify (run p)
      modify λ k. record k { current = 0 })
    release p

  unfoldable pub schedule_loop : (ℕ → Switch W) → ℕ → ℕ → Cmd (Kernel W) Void
  schedule_loop run zero p = pure tt
  schedule_loop run (suc n) p = schedule_one run p >> schedule_loop run n (p + 1)

  unfoldable pub schedule_passes : (ℕ → Switch W) → ℕ → Cmd (Kernel W) Void
  schedule_passes run zero = pure tt
  schedule_passes run (suc n) = schedule_loop run nproc first_proc >> schedule_passes run n

  -- the first `n` passes of the endless loop
  unfoldable pub scheduler : (ℕ → Switch W) → ℕ → Cmd (Kernel W) Void
  scheduler run n = do modify λ k. record k { current = 0 }; schedule_passes run n
