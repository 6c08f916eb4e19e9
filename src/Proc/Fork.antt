-- ===== src/Proc/Fork.antt =====
-- `fork` and `forkn` of kernel/proc.c. A result of `none` is the return value -1.
pub mod Child
pub mod Leak
use os2025_assignment.Base.{
  ℕ, zero, suc, ◌+◌, ◌-◌, Bool, not, ◌||◌, Option, none, some, List, [], ◌∷◌, ◌++◌, ltb, ◌==◌, ◌/=◌,
  if◌then◌else◌, update,
}
use os2025_assignment.Machine.{Cmd, Void, ok, pure, fail, gets, modify, when, and_then, ◌>>=◌, ◌>>◌}
use os2025_assignment.Str.{safestrcpy}
use os2025_assignment.File.{filedup}
use os2025_assignment.Proc.{
  unused, runnable, Proc, nofile, Services, Kernel, acquire, release, acquire_wait, release_wait,
  myproc, get_proc, set_proc, call, effect, int_bytes,
}
use os2025_assignment.Proc.Alloc.{freeproc, allocproc}

-- the bytes of an array of `int`
abbrev pub ints : List ℕ → List ℕ
ints [] = []
ints (v ∷ vs) = int_bytes v ++ ints vs

module _ (services : Services) where
  open services use {World, uvmcopy, copyout, idup}

  -- `filedup(f)` for the pointer `f`
  unfoldable pub dup : ℕ → Cmd (Kernel World) Void
  dup f k = elim (filedup (f - 1) k.ftable) [
    | none ↦ fail k
    | some t ↦ ok tt (record k { ftable = t })
  ]

  -- the loop over the open files, with `n` left from `fd` on
  unfoldable pub dup_files : ℕ → ℕ → ℕ → ℕ → Cmd (Kernel World) Void
  dup_files zero fd me np = pure tt
  dup_files (suc n) fd me np = do
    p ← get_proc me
    when (p.ofile fd /= 0)
        (do dup (p.ofile fd); set_proc np λ q. record q { ofile = update q.ofile fd (p.ofile fd) })
    dup_files n (fd + 1) me np

  -- What `fork` and `forkn` write alike to a child whose memory is copied, with `a0` for the value
  -- that the child's system call returns.
  unfoldable pub copy_process : ℕ → ℕ → ℕ → Cmd (Kernel World) Void
  copy_process me np a0 = do
    p ← get_proc me
    set_proc np λ q. record q { sz = p.sz; frame = record p.frame { a0 = a0 } }
    dup_files nofile 0 me np
    effect (idup p.cwd)
    set_proc np λ q. record q { cwd = p.cwd; name = safestrcpy q.name p.name 16 }

  unfoldable pub fork : Cmd (Kernel World) (Option ℕ)
  fork = do
    me ← myproc
    child ← allocproc services
    elim child [
      | none ↦ pure none
      | some np ↦ do
        p ← get_proc me
        q ← get_proc np
        copied ← call (uvmcopy p.pagetable q.pagetable p.sz)
        if not copied then (do freeproc services np; release np; pure none) else do
          copy_process me np 0
          q ← get_proc np
          release np
          acquire_wait
          set_proc np λ q. record q { parent = me }
          release_wait
          acquire np
          set_proc np λ q. record q { state = runnable }
          release np
          pure (some q.pid)
    ]

  -- `forkn` gives back the children that it has made.
  unfoldable pub undo : List ℕ → Cmd (Kernel World) Void
  undo [] = pure tt
  undo (child ∷ kids) = do
    acquire child
    set_proc child λ q. record q { state = unused }
    freeproc services child
    release child
    undo kids

  -- The first loop, with `n` children left to make after `i`; the lists are `kids` and
  -- `pids_local`.
  unfoldable pub make_kids : ℕ → ℕ → List ℕ → List ℕ → Cmd (Kernel World) (Option (List ℕ × List ℕ))
  make_kids zero i kids pids = pure (some (kids, pids))
  make_kids (suc n) i kids pids = do
    me ← myproc
    child ← allocproc services
    elim child [
      | none ↦ do undo kids; pure none
      | some np ↦ do
        p ← get_proc me
        q ← get_proc np
        copied ← call (uvmcopy p.pagetable q.pagetable p.sz)
        if not copied then (do freeproc services np; undo kids; pure none) else do
          copy_process me np (i + 1)
          release np
          make_kids n (i + 1) (kids ++ (np ∷ [])) (pids ++ (q.pid ∷ []))
    ]

  -- the second loop
  unfoldable pub start_kids : List ℕ → Cmd (Kernel World) Void
  start_kids [] = pure tt
  start_kids (child ∷ kids) = do
    me ← myproc
    set_proc child λ q. record q { parent = me }
    acquire child
    set_proc child λ q. record q { state = runnable }
    release child
    start_kids kids

  -- A negative `n` has a pattern of 2^31 or more, which the test rejects too.
  unfoldable pub forkn : ℕ → ℕ → Cmd (Kernel World) (Option ℕ)
  forkn n pids = if ltb n 1 || ltb 16 n then pure none else do
    made ← make_kids n 0 [] []
    elim made [
      | none ↦ pure none
      | some (kids, pids_local) ↦ do
        acquire_wait
        start_kids kids
        release_wait
        if pids == 0 then pure (some 0) else do
          me ← myproc
          p ← get_proc me
          copied ← call (copyout p.pagetable pids (ints pids_local))
          if copied then pure (some 0) else pure none
    ]
