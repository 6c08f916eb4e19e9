-- ===== src/Proc/Waitall.antt =====
-- `waitall` of kernel/proc.c. It loops until every child has exited and sleeps in between, as `wait`
-- does.
pub mod Count
pub mod Result
use os2025_assignment.Base.{
  ℕ, zero, suc, ◌+◌, Bool, true, false, not, Option, none, some, List, [], ◌∷◌, ◌++◌, ◌==◌, ◌/=◌,
  if◌then◌else◌, slice, update,
}
use os2025_assignment.Machine.{Cmd, Void, ok, pure, gets, modify, when, and_then, ◌>>=◌, ◌>>◌}
use os2025_assignment.Proc.{
  is_zombie, Proc, nproc, first_proc, Services, Kernel, acquire, release, acquire_wait,
  release_wait, myproc, get_proc, call, int_bytes,
}
use os2025_assignment.Proc.Alloc.{freeproc}
use os2025_assignment.Proc.Signal.{killed}
use os2025_assignment.Proc.Sched.{Switch, sleep}
use os2025_assignment.Proc.Fork.{ints}
use os2025_assignment.Proc.Wait.{Outcome, returned, asleep}

-- The locals of a pass: `allDone`, `count`, `statuses_local`, `to_free` and `foundChild`.
pub record Tally : Type 0 where
  pub all_done : Bool
  pub count : ℕ
  pub statuses : ℕ → ℕ
  pub to_free : List ℕ
  pub found_child : Bool

-- what the scan does with an entry whose parent is the caller
unfoldable pub tally_child : ℕ → Proc → Tally → Tally
tally_child pp q t =
    if is_zombie q.state
    then record t {
      found_child = true;
      statuses = update t.statuses t.count q.xstate;
      to_free = t.to_free ++ (pp ∷ []);
      count = t.count + 1;
    }
    else record t { found_child = true; all_done = false; count = t.count + 1 }

-- how a pass ends: with the return value, or in `sleep`
pub data Pass : Type 0 where
  result : Option ℕ → Pass
  sleeps : (ℕ → ℕ) → Pass

module _ (services : Services) where
  open services use {World, copyout}

  -- the scan, with `n` entries left from `pp` on
  unfoldable pub waitall_scan : ℕ → ℕ → Tally → Cmd (Kernel World) Tally
  waitall_scan zero pp t = pure t
  waitall_scan (suc n) pp t = do
    me ← myproc
    acquire pp
    q ← get_proc pp
    release pp
    waitall_scan n (pp + 1) (if q.parent == me then tally_child pp q t else t)

  unfoldable pub free_all : List ℕ → Cmd (Kernel World) Void
  free_all [] = pure tt
  free_all (child ∷ kids) = do acquire child; freeproc services child; release child; free_all kids

  -- `if(addr) copyout(...)`, whose result is not looked at
  unfoldable pub copy_ints : ℕ → List ℕ → Cmd (Kernel World) Void
  copy_ints addr values =
      when (addr /= 0) (do
        me ← myproc
        p ← get_proc me
        _ ← call (copyout p.pagetable addr (ints values))
        pure tt)

  -- One round of the loop up to `sleep`, with `wait_lock` held.
  unfoldable pub waitall_pass : ℕ → ℕ → (ℕ → ℕ) → Cmd (Kernel World) Pass
  waitall_pass n_addr statuses_addr statuses = do
    me ← myproc
    t ← waitall_scan nproc first_proc (record {
      all_done = true;
      count = 0;
      statuses = statuses;
      to_free = [];
      found_child = false;
    })
    if not t.found_child
        then (do release_wait; copy_ints n_addr (0 ∷ []); pure (result (some 0)))
        else if t.all_done
        then (do
          free_all t.to_free
          release_wait
          copy_ints n_addr (t.count ∷ [])
          copy_ints statuses_addr (slice t.statuses 0 t.count)
          pure (result (some 0)))
        else do
          k ← killed me
          if k /= 0 then (do release_wait; pure (result none)) else pure (sleeps t.statuses)

  unfoldable pub waitall_loop : ℕ → ℕ → (ℕ → ℕ) → List (Switch World) → Cmd (Kernel World) Outcome
  waitall_loop n_addr statuses_addr statuses [] = do
    r ← waitall_pass n_addr statuses_addr statuses
    elim r [ sleeps _ ↦ pure asleep | result r ↦ pure (returned r) ]
  waitall_loop n_addr statuses_addr statuses (others ∷ away) = do
    r ← waitall_pass n_addr statuses_addr statuses
    elim r [
      | sleeps statuses' ↦ do
        me ← myproc
        sleep me release_wait acquire_wait others
        waitall_loop n_addr statuses_addr statuses' away
      | result r ↦ pure (returned r)
    ]

  -- `statuses_local` is zeroed first.
  unfoldable pub waitall : ℕ → ℕ → List (Switch World) → Cmd (Kernel World) Outcome
  waitall n_addr statuses_addr away =
      acquire_wait >> waitall_loop n_addr statuses_addr (λ _. 0) away
