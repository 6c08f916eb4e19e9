-- ===== src/Proc/Exit.antt =====
-- `reparent` and `exit` of kernel/proc.c.
use os2025_assignment.Base.{ℕ, zero, suc, ◌+◌, ◌-◌, none, some, ◌==◌, ◌/=◌, update}
use os2025_assignment.Machine.{Cmd, Void, ok, pure, fail, gets, when, ◌>>=◌, ◌>>◌}
use os2025_assignment.Str.{Bytes, safestrcpy}
use os2025_assignment.File.{fileclose}
use os2025_assignment.Proc.{
  zombie, nproc, nofile, first_proc, Services, Kernel, acquire, acquire_wait, release_wait, myproc,
  get_proc, set_proc, effect,
}
use os2025_assignment.Proc.Signal.{wakeup}
use os2025_assignment.Proc.Sched.{sched_checks}

module _ {W : Type 0} where
  -- the loop of `reparent(p)`, with `n` entries left from `pp` on
  unfoldable pub reparent_loop : ℕ → ℕ → ℕ → Cmd (Kernel W) Void
  reparent_loop zero pp p = pure tt
  reparent_loop (suc n) pp p = do
    init ← gets (λ k. k.initproc)
    q ← get_proc pp
    when (q.parent == p) (do set_proc pp λ q. record q { parent = init }; wakeup init)
    reparent_loop n (pp + 1) p

  unfoldable pub reparent : ℕ → Cmd (Kernel W) Void
  reparent p = reparent_loop nproc first_proc p

module _ (services : Services) where
  open services use {World, begin_op, iput, end_op, close_last}

  -- `fileclose(f)` for the pointer `f`; behind the table's lock it is a call of other parts.
  unfoldable pub close : ℕ → Cmd (Kernel World) Void
  close f k = elim (fileclose (f - 1) k.ftable) [
    | none ↦ fail k
    | some (last, t) ↦ ok tt (record k {
      ftable = t;
      world = elim last [ none ↦ k.world | some file ↦ close_last file k.world ];
    })
  ]

  unfoldable pub close_files : ℕ → ℕ → Cmd (Kernel World) Void
  close_files zero fd = pure tt
  close_files (suc n) fd = do
    me ← myproc
    p ← get_proc me
    when (p.ofile fd /= 0)
        (do close (p.ofile fd); set_proc me λ p. record p { ofile = update p.ofile fd 0 })
    close_files n (fd + 1)

  -- `exit` up to the `swtch` in `sched`, behind which it never comes.
  unfoldable pub exit : ℕ → Bytes → Cmd (Kernel World) Void
  exit status msg = do
    me ← myproc
    init ← gets (λ k. k.initproc)
    when (me == init) fail
    close_files nofile 0
    effect begin_op
    p ← get_proc me
    effect (iput p.cwd)
    effect end_op
    set_proc me λ p. record p { cwd = 0 }
    acquire_wait
    set_proc me λ p. record p { exit_msg = safestrcpy p.exit_msg msg 32 }
    reparent me
    p ← get_proc me
    wakeup p.parent
    acquire me
    set_proc me λ p. record p { xstate = status; state = zombie }
    release_wait
    sched_checks
