-- ===== src/Sysfile/Calls.antt =====
-- The system calls of kernel/sysfile.c other than `exec`, as `syscall` of kernel/syscall.c calls them:
-- every one ends the operations that it begins.
use os2025_assignment.Base.{
  ℕ, ◌≡◌, refl, Bool, Option, none, some, Option-cases, List, update, inl, inr, ◌==◌,
}
use os2025_assignment.Machine.{Cmd, Run, Void, ok, panic, pure, and_then, ◌>>=◌}
use os2025_assignment.Str.{Bytes}
use os2025_assignment.File.{FileKind, filedup}
use os2025_assignment.Fs.{Fs}
use os2025_assignment.Sysfile.{
  Sys, argfd, fdalloc, sys_dup, sys_read, sys_write, sys_fstat, sys_close, close_file, alloc_file,
  dup_file,
}
use os2025_assignment.Sysfile.Names.{sys_link}
use os2025_assignment.Sysfile.Paths.{sys_unlink, sys_open, sys_mkdir, sys_mknod, sys_chdir}
use os2025_assignment.Sysfile.Pipes.{pipealloc, store_fds, close_both, pipe_fds, sys_pipe}
use os2025_assignment.Sysfile.Balance.{
  Leaves, LeavesBy, returns, panics, call_step, opt_call_step, if_step, balance,
}
use os2025_assignment.Sysfile.Io.{Ends, ends, Kept, sys_read_lem, sys_write_lem, sys_fstat_lem}
use os2025_assignment.Sysfile.Ends.{
  sys_link-Leaves, sys_unlink-Leaves, make_node-Leaves, sys_chdir-Leaves,
}
use os2025_assignment.Sysfile.Opens.{fdalloc-Leaves, close_file-Leaves, sys_open-Leaves}

-- A call and the arguments that it has fetched.
pub data FileCall : Type 0 where
  dup : ℕ → FileCall
  read : ℕ → ℕ → ℕ → FileCall
  write : ℕ → ℕ → ℕ → FileCall
  fstat : ℕ → ℕ → FileCall
  close : ℕ → FileCall
  pipe : ℕ → FileCall
  open_path : Option (List ℕ) → ℕ → FileCall
  link : Option (List ℕ) → Option (List ℕ) → FileCall
  unlink : Option (List ℕ) → FileCall
  mkdir : Option (List ℕ) → FileCall
  mknod : Option (List ℕ) → ℕ → ℕ → FileCall
  chdir : Option (List ℕ) → FileCall

-- sizeof(struct stat)
abbrev pub stat_size : ℕ
stat_size = 24

-- what a call that gives a structure returns: 0 or -1
abbrev pub status : {A : Type 0} → Option A → Option ℕ
status none = none
status (some _) = some 0

module _ {W : Type 0} where
  Ends-Leaves :
      {A B : Type 0} (s : Sys W) (r : Run (Sys W) A) (g : A → B)
      → Ends (Kept s) r
      → Leaves s.ops (and_then r λ a. ok (g a))
  Ends-Leaves s panic g h = panics
  Ends-Leaves s (ok a t) g (ends (e, _)) = returns e

  argfd-Leaves : (fd : ℕ) (s : Sys W) → Leaves s.ops (argfd fd s)
  unfolding argfd
  argfd-Leaves fd s = returns refl

  alloc_file-Leaves : (s : Sys W) → Leaves s.ops (alloc_file s)
  unfolding alloc_file
  alloc_file-Leaves s = returns refl

  dup_file-Leaves : (f : ℕ) (s : Sys W) → Leaves s.ops (dup_file f s)
  dup_file-Leaves f s = elim (Option-cases (filedup f s.ftable)) [
    | inl e ↦ rw (dup_file, e) panics
    | inr (t, e) ↦ rw (dup_file, e) (returns refl)
  ]

  sys_dup-Leaves : (fd : ℕ) (s : Sys W) → Leaves s.ops (sys_dup fd s)
  unfolding sys_dup
  sys_dup-Leaves fd s =
      opt_call_step (argfd fd) (argfd-Leaves fd) s.ops _ s _ refl (λ s'. returns)
        λ f s' e.
          opt_call_step (fdalloc f) (fdalloc-Leaves f) s.ops _ s' _ e (λ s''. returns)
            λ fd' s'' e'. call_step (dup_file f) (dup_file-Leaves f) s.ops _ s'' _ e' λ _ _. returns

module _ {W : Type 0} (pipeclose : ℕ → Bool → W → W) where
  -- `close_file` as a step
  close_step :
      (b f : ℕ) {B : Type 0} (g : B → ℕ) (s : Sys W) (k : Void → Cmd (Sys W) B)
      → s.ops ≡ b
      → ((s' : Sys W) → s'.ops ≡ b → LeavesBy g (k tt s'))
      → LeavesBy g (and_then (close_file pipeclose f s) k)
  close_step b f g s k e h =
      call_step (close_file pipeclose f) (close_file-Leaves pipeclose f) b g s k e (λ _. h)

  sys_close-Leaves : (fd : ℕ) (s : Sys W) → Leaves s.ops (sys_close pipeclose fd s)
  unfolding sys_close
  sys_close-Leaves fd s =
      opt_call_step (argfd fd) (argfd-Leaves fd) s.ops _ s _ refl (λ s'. returns)
        λ f s' e. close_step s.ops f _ (record s' { ofile = update s'.ofile fd 0 }) _ e λ _. returns

  module _ (kalloc : W → ℕ × W) (pipeopen : ℕ → W → W) (copyout : ℕ → List ℕ → W → Bool × W) where
    pipealloc-Leaves : (s : Sys W) → Leaves s.ops (pipealloc kalloc pipeopen pipeclose s)
    unfolding pipealloc
    pipealloc-Leaves s =
        opt_call_step alloc_file alloc_file-Leaves s.ops _ s _ refl (λ s'. returns)
          λ f0 s' e.
            opt_call_step alloc_file alloc_file-Leaves s.ops _ s' _ e
              (λ s'' e'. close_step s.ops f0 _ s'' _ e' (λ _. returns))
              λ f1 s'' e'.
                let v = kalloc s''.world in
                if_step _ (v.0 == 0) _ _ (record s'' { world = v.1 })
                  (close_step s.ops f0 _ (record s'' { world = v.1 }) _ e'
                    λ r er. close_step s.ops f1 _ r _ er λ _. returns)
                  (returns e')

    store_fds-Leaves :
        (a fd0 fd1 : ℕ) (s : Sys W)
        → Leaves s.ops (store_fds kalloc pipeopen pipeclose copyout a fd0 fd1 s)
    unfolding store_fds
    store_fds-Leaves a fd0 fd1 s = search balance depth 8

    close_both-Leaves :
        (b rf wf : ℕ) (s : Sys W)
        → s.ops ≡ b
        → Leaves b (close_both kalloc pipeopen pipeclose copyout rf wf s)
    unfolding close_both
    close_both-Leaves b rf wf s e =
        close_step b rf _ s _ e λ s' e'. close_step b wf _ s' _ e' λ _. returns

    sys_pipe-Leaves :
        (a : ℕ) (s : Sys W) → Leaves s.ops (sys_pipe kalloc pipeopen pipeclose copyout a s)
    unfolding sys_pipe pipe_fds
    sys_pipe-Leaves a s =
        opt_call_step (pipealloc kalloc pipeopen pipeclose) pipealloc-Leaves s.ops _ s _ refl
          (λ _. returns)
          λ f s1 e1.
            opt_call_step (fdalloc f.0) (fdalloc-Leaves f.0) s.ops _ s1 _ e1
              (λ s2. close_both-Leaves s.ops f.0 f.1 s2)
              λ fd0 s2 e2.
                opt_call_step (fdalloc f.1) (fdalloc-Leaves f.1) s.ops _ s2 _ e2
                  (λ s3.
                    close_both-Leaves s.ops f.0 f.1 (record s3 { ofile = update s3.ofile fd0 0 }))
                  λ fd1 s3 e3.
                    call_step (store_fds kalloc pipeopen pipeclose copyout a fd0 fd1)
                      (store_fds-Leaves a fd0 fd1) s.ops _ s3 _ e3
                      λ stored s4 e4. if_step _ stored _ _ s4 (returns e4) (
                        close_both-Leaves s.ops f.0 f.1
                          (record s4 { ofile = update (update s4.ofile fd0 0) fd1 0 }) e4)

    module _ (other : FileKind → Cmd Fs (Option ℕ)) (has : ℕ → Bool) (takes : ℕ → ℕ → Bool)
        (copyin : ℕ → ℕ → Option (ℕ → ℕ)) (junk before : Bytes) where
      unfoldable pub run_call : FileCall → Cmd (Sys W) (Option ℕ)
      run_call (dup fd) = sys_dup fd
      run_call (read fd p n) = do r ← sys_read other has takes fd p n; pure (r.0)
      run_call (write fd p n) = sys_write other has copyin fd p n
      run_call (fstat fd st) = do r ← sys_fstat (takes st stat_size) fd; pure (status r)
      run_call (close fd) = sys_close pipeclose fd
      run_call (pipe a) = sys_pipe kalloc pipeopen pipeclose copyout a
      run_call (open_path path omode) = sys_open junk before pipeclose path omode
      run_call (link old new) = sys_link junk before old new
      run_call (unlink path) = sys_unlink junk before path
      run_call (mkdir path) = sys_mkdir junk before path
      run_call (mknod path major minor) = sys_mknod junk before path major minor
      run_call (chdir path) = sys_chdir junk before path

      -- Each of the calls `dup`, `read`, `write`, `fstat`, `close`, `pipe`, `open`, `link`, `unlink`,
      -- `mkdir`, `mknod` and `chdir` that returns, on whatever path through its errors, leaves as many
      -- operations of the log open as it found: each `begin_op` has been met by one `end_op`.
      pub run_call-Leaves : (c : FileCall) (s : Sys W) → Leaves s.ops (run_call c s)
      unfolding run_call sys_mkdir sys_mknod
      run_call-Leaves (dup fd) s = sys_dup-Leaves fd s
      run_call-Leaves (read fd p n) s =
          Ends-Leaves s (sys_read other has takes fd p n s) (λ r. r.0)
            (sys_read_lem other has takes fd p n s)
      run_call-Leaves (write fd p n) s =
          write_ends (sys_write other has copyin fd p n s) (sys_write_lem other has copyin fd p n s)
        where
          write_ends : (r : Run (Sys W) (Option ℕ)) → Ends (Kept s) r → Leaves s.ops r
          write_ends panic h = panics
          write_ends (ok a t) (ends (e, _)) = returns e
      run_call-Leaves (fstat fd st) s =
          Ends-Leaves s (sys_fstat (takes st stat_size) fd s) status
            (sys_fstat_lem (takes st stat_size) fd s)
      run_call-Leaves (close fd) s = sys_close-Leaves fd s
      run_call-Leaves (pipe a) s = sys_pipe-Leaves a s
      run_call-Leaves (open_path path omode) s = sys_open-Leaves junk before pipeclose path omode s
      run_call-Leaves (link old new) s = sys_link-Leaves junk before old new s
      run_call-Leaves (unlink path) s = sys_unlink-Leaves junk before path s
      run_call-Leaves (mkdir path) s = make_node-Leaves junk before path _ _ _ s
      run_call-Leaves (mknod path major minor) s = make_node-Leaves junk before path _ _ _ s
      run_call-Leaves (chdir path) s = sys_chdir-Leaves junk before path s
