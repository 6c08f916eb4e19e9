-- ===== src/Sysfile.antt =====
-- kernel/sysfile.c: the system calls on files. A call is given the arguments that it fetches; a
-- path that `argstr` cannot fetch is `none`, as is the result -1. The state is that of the process
-- that calls: its descriptors (`f + 1` for `ftable.file[f]`, 0 for NULL) and its directory, the file
-- table, the file system, and how many of its operations the log has not ended (`ops`).
pub mod Names
pub mod Paths
pub mod Pipes
pub mod Balance
pub mod Ends
pub mod Opens
pub mod Calls
pub mod Slots
pub mod Counts
pub mod Shares
pub mod Users
pub mod Undo
pub mod PipeEnds
pub mod Pairs
pub mod Io
pub mod Keeping
pub mod Kept
mod Checks
use os2025_assignment.Base.{
  ℕ, zero, suc, ◌+◌, ◌-◌, Bool, true, false, not, ◌&&◌, Option, none, some, List, [], ltb, ◌==◌,
  ◌/=◌, if◌then◌else◌, update,
}
use os2025_assignment.Machine.{
  Cmd, Void, Run, ok, panic, pure, fail, gets, modify, when, ◌>>=◌, ◌>>◌,
}
pub use os2025_assignment.Proc.{nofile}
use os2025_assignment.File.{
  File, Ftable, FileKind, unset, pipe, inode, device, filealloc, filedup, fileclose,
}
use os2025_assignment.Fs.{Fs}
use os2025_assignment.Fs.Content.{Stat}
use os2025_assignment.Fs.Inodes.{iput}
use os2025_assignment.Fs.Open.{Journal, filestat, fileread, filewrite}

-- `world` is what the calls of other parts change.
pub record Sys (W : Type 0) : Type 0 where
  pub ofile : ℕ → ℕ
  pub cwd : ℕ
  pub ftable : Ftable
  pub fs : Fs
  pub ops : ℕ
  pub world : W

module _ {W : Type 0} where
  abbrev pub begin_op : Cmd (Sys W) Void
  begin_op = modify λ s. record s { ops = s.ops + 1 }

  abbrev pub end_op : Cmd (Sys W) Void
  end_op = modify λ s. record s { ops = s.ops - 1 }

  -- what a run of the file system leaves
  abbrev pub with_fs : {A : Type 0} → Sys W → Run Fs A → Run (Sys W) A
  with_fs s panic = panic
  with_fs s (ok a fs) = ok a (record s { fs = fs })

  abbrev pub in_fs : {A : Type 0} → Cmd Fs A → Cmd (Sys W) A
  in_fs m s = with_fs s (m s.fs)

  -- what a run with the log in front of the file system leaves
  abbrev pub with_journal : {A : Type 0} → Sys W → Run Journal A → Run (Sys W) A
  with_journal s panic = panic
  with_journal s (ok a j) = ok a (record s { fs = j.fs; ops = j.ops })

  abbrev pub under_ops : {A : Type 0} → Cmd Journal A → Cmd (Sys W) A
  under_ops m s = with_journal s (m (record { fs = s.fs; ops = s.ops; begun = 0 }))

  abbrev pub set_ofile : ℕ → ℕ → Cmd (Sys W) Void
  set_ofile fd f = modify λ s. record s { ofile = update s.ofile fd f }

  -- A descriptor is an `int`, of which the negative ones are large patterns.
  unfoldable pub argfd : ℕ → Cmd (Sys W) (Option ℕ)
  argfd fd s =
      ok
        (if not (ltb fd nofile)
          then none
          else if s.ofile fd == 0
          then none
          else some (s.ofile fd - 1))
        s

  -- the loop, with `n` descriptors left from `fd` on
  unfoldable pub fdalloc_loop : ℕ → ℕ → ℕ → Cmd (Sys W) (Option ℕ)
  fdalloc_loop zero fd f = pure none
  fdalloc_loop (suc n) fd f = do
    o ← gets λ s. s.ofile fd
    if o == 0 then (do set_ofile fd (f + 1); pure (some fd)) else fdalloc_loop n (fd + 1) f

  unfoldable pub fdalloc : ℕ → Cmd (Sys W) (Option ℕ)
  fdalloc f = fdalloc_loop nofile 0 f

  unfoldable pub alloc_file : Cmd (Sys W) (Option ℕ)
  alloc_file s = let r = filealloc s.ftable in ok (r.0) (record s { ftable = r.1 })

  abbrev pub dup_file : ℕ → Cmd (Sys W) Void
  dup_file f s = elim (filedup f s.ftable) [
    | none ↦ panic
    | some t ↦ ok tt (record s { ftable = t })
  ]

  unfoldable pub sys_dup : ℕ → Cmd (Sys W) (Option ℕ)
  sys_dup fd = do
    found ← argfd fd
    elim found [
      | none ↦ pure none
      | some f ↦ do
        new ← fdalloc f
        elim new [ none ↦ pure none | some fd' ↦ do dup_file f; pure (some fd') ]
    ]

  -- `pipeclose` is given the pipe and whether the writing end is closed.
  module _ (pipeclose : ℕ → Bool → W → W) where
    -- what `fileclose` does with the last reference of a file, outside the lock
    unfoldable pub close_last : File → Cmd (Sys W) Void
    close_last ff = elim ff.kind [
      | pipe ↦ modify λ s. record s { world = pipeclose ff.pipe_at ff.writable s.world }
      | inode ↦ do begin_op; in_fs (iput ff.ip); end_op
      | device ↦ do begin_op; in_fs (iput ff.ip); end_op
      | unset ↦ pure tt
    ]

    unfoldable pub close_file : ℕ → Cmd (Sys W) Void
    close_file f s = elim (fileclose f s.ftable) [
      | none ↦ panic
      | some (none, t) ↦ ok tt (record s { ftable = t })
      | some (some ff, t) ↦ close_last ff (record s { ftable = t })
    ]

    -- `filealloc` and `fdalloc`; without a descriptor the file is given back.
    unfoldable pub open_file : Cmd (Sys W) (Option (ℕ × ℕ))
    open_file = do
      f ← alloc_file
      elim f [
        | none ↦ pure none
        | some f ↦ do
          fd ← fdalloc f
          elim fd [ none ↦ do close_file f; pure none | some fd ↦ pure (some (f, fd)) ]
      ]

    unfoldable pub sys_close : ℕ → Cmd (Sys W) (Option ℕ)
    sys_close fd = do
      found ← argfd fd
      elim found [ none ↦ pure none | some f ↦ do set_ofile fd 0; close_file f; pure (some 0) ]

  -- `f->off` has moved.
  abbrev pub put_file : ℕ → File → Cmd (Sys W) Void
  put_file f file = modify λ s. record s { ftable = update s.ftable f file }

  -- `other`, `has`, `copyout` and `copyin` are those of Fs/Open.antt.
  module _ (other : FileKind → Cmd Fs (Option ℕ)) (has : ℕ → Bool) where
    unfoldable pub sys_read : (ℕ → ℕ → Bool) → ℕ → ℕ → ℕ → Cmd (Sys W) (Option ℕ × List (ℕ × ℕ))
    sys_read copyout fd p n = do
      found ← argfd fd
      elim found [
        | none ↦ pure (none, [])
        | some f ↦ do
          file ← gets λ s. s.ftable f
          r ← in_fs (fileread other has copyout file p n)
          put_file f (r.1)
          pure (r.0, r.2)
      ]

    unfoldable pub sys_write : (ℕ → ℕ → Option (ℕ → ℕ)) → ℕ → ℕ → ℕ → Cmd (Sys W) (Option ℕ)
    sys_write copyin fd p n = do
      found ← argfd fd
      elim found [
        | none ↦ pure none
        | some f ↦ do
          file ← gets λ s. s.ftable f
          r ← under_ops (filewrite copyin other has file p n)
          put_file f (r.1)
          pure (r.0)
      ]

  unfoldable pub sys_fstat : Bool → ℕ → Cmd (Sys W) (Option Stat)
  sys_fstat copies fd = do
    found ← argfd fd
    elim found [
      | none ↦ pure none
      | some f ↦ do file ← gets λ s. s.ftable f; in_fs (filestat file copies)
    ]
