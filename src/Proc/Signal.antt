-- ===== src/Proc/Signal.antt =====
-- `wakeup`, `kill`, `setkilled` and `killed` of kernel/proc.c.
pub mod Pointwise
use os2025_assignment.Base.{
  ℕ, zero, suc, ◌+◌, Bool, true, false, ◌&&◌, ◌==◌, ◌/=◌, if◌then◌else◌, update,
}
use os2025_assignment.Machine.{Cmd, Void, ok, pure, gets, modify, when, and_then, ◌>>=◌, ◌>>◌}
use os2025_assignment.Proc.{
  sleeping, runnable, is_sleeping, Proc, nproc, first_proc, Kernel, acquire, release, myproc,
  get_proc, set_proc,
}

module _ {W : Type 0} where
  -- the body of the loop of `wakeup`
  unfoldable pub wakeup_one : ℕ → ℕ → Cmd (Kernel W) Void
  wakeup_one chan p = do
    me ← myproc
    when (p /= me) (do
      acquire p
      q ← get_proc p
      when (is_sleeping q.state && (q.chan == chan)) (set_proc p λ q. record q { state = runnable })
      release p)

  unfoldable pub wakeup_loop : ℕ → ℕ → ℕ → Cmd (Kernel W) Void
  wakeup_loop zero p chan = pure tt
  wakeup_loop (suc n) p chan = wakeup_one chan p >> wakeup_loop n (p + 1) chan

  unfoldable pub wakeup : ℕ → Cmd (Kernel W) Void
  wakeup chan = wakeup_loop nproc first_proc chan

  -- `true` is the result 0, `false` is -1.
  unfoldable pub kill_loop : ℕ → ℕ → ℕ → Cmd (Kernel W) Bool
  kill_loop zero p pid = pure false
  kill_loop (suc n) p pid = do
    acquire p
    q ← get_proc p
    if q.pid == pid
        then (do
          set_proc p λ q. record q { killed = 1 }
          when (is_sleeping q.state) (set_proc p λ q. record q { state = runnable })
          release p
          pure true)
        else (do release p; kill_loop n (p + 1) pid)

  unfoldable pub kill : ℕ → Cmd (Kernel W) Bool
  kill pid = kill_loop nproc first_proc pid

  unfoldable pub setkilled : ℕ → Cmd (Kernel W) Void
  setkilled p = do acquire p; set_proc p λ q. record q { killed = 1 }; release p

  unfoldable pub killed : ℕ → Cmd (Kernel W) ℕ
  killed p = do acquire p; q ← get_proc p; release p; pure q.killed
