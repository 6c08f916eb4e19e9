-- ===== src/Sysfile/Pipes.antt =====
-- `pipealloc` of kernel/pipe.c and `sys_pipe` of kernel/sysfile.c. `kalloc` gives the address of a
-- page, or 0; `copyout` copies the four bytes of an `int` to a user address and tells whether it
-- could.
use os2025_assignment.Base.{
  ℕ, ◌+◌, Bool, true, false, not, Option, none, some, List, ◌==◌, if◌then◌else◌,
}
use os2025_assignment.Machine.{Cmd, ok, pure, gets, modify, ◌>>=◌, ◌>>◌}
use os2025_assignment.File.{File, pipe}
use os2025_assignment.Proc.{int_bytes}
use os2025_assignment.Sysfile.{Sys, alloc_file, set_ofile, fdalloc, close_file, put_file}

-- an end of the pipe
abbrev pub pipe_end : ℕ → Bool → File → File
pipe_end page writing f = record f {
  kind = pipe;
  readable = not writing;
  writable = writing;
  pipe_at = page;
}

-- `pipeopen` sets up the pipe in its page.
module _ {W : Type 0} (kalloc : W → ℕ × W) (pipeopen : ℕ → W → W)
    (pipeclose : ℕ → Bool → W → W) where
  abbrev pub call_kalloc : Cmd (Sys W) ℕ
  call_kalloc s = ok (kalloc s.world).0 (record s { world = (kalloc s.world).1 })

  unfoldable pub pipealloc : Cmd (Sys W) (Option (ℕ × ℕ))
  pipealloc = do
    f0 ← alloc_file
    elim f0 [
      | none ↦ pure none
      | some f0 ↦ do
        f1 ← alloc_file
        elim f1 [
          | none ↦ do close_file pipeclose f0; pure none
          | some f1 ↦ do
            page ← call_kalloc
            if page == 0
                then (do close_file pipeclose f0; close_file pipeclose f1; pure none)
                else (do
                  modify λ s. record s { world = pipeopen page s.world }
                  file0 ← gets λ s. s.ftable f0
                  put_file f0 (pipe_end page false file0)
                  file1 ← gets λ s. s.ftable f1
                  put_file f1 (pipe_end page true file1)
                  pure (some (f0, f1)))
        ]
    ]

  module _ (copyout : ℕ → List ℕ → W → Bool × W) where
    abbrev pub call_copyout : ℕ → ℕ → Cmd (Sys W) Bool
    call_copyout addr v s =
        let r = copyout addr (int_bytes v) s.world in ok (r.0) (record s { world = r.1 })

    -- both descriptors are stored, the second only if the first could be
    unfoldable pub store_fds : ℕ → ℕ → ℕ → Cmd (Sys W) Bool
    store_fds fdarray fd0 fd1 = do
      first ← call_copyout fdarray fd0
      if not first then pure false else call_copyout (fdarray + 4) fd1

    unfoldable pub close_both : ℕ → ℕ → Cmd (Sys W) (Option ℕ)
    close_both rf wf = do close_file pipeclose rf; close_file pipeclose wf; pure none

    -- `sys_pipe` behind `pipealloc`
    unfoldable pub pipe_fds : ℕ → ℕ → ℕ → Cmd (Sys W) (Option ℕ)
    pipe_fds fdarray rf wf = do
      fd0 ← fdalloc rf
      elim fd0 [
        | none ↦ close_both rf wf
        | some fd0 ↦ do
          fd1 ← fdalloc wf
          elim fd1 [
            | none ↦ do set_ofile fd0 0; close_both rf wf
            | some fd1 ↦ do
              stored ← store_fds fdarray fd0 fd1
              if stored
                  then pure (some 0)
                  else do set_ofile fd0 0; set_ofile fd1 0; close_both rf wf
          ]
      ]

    unfoldable pub sys_pipe : ℕ → Cmd (Sys W) (Option ℕ)
    sys_pipe fdarray = do
      made ← pipealloc
      elim made [ none ↦ pure none | some (rf, wf) ↦ pipe_fds fdarray rf wf ]
