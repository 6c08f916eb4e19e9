-- ===== src/Fs/Open.antt =====
-- `filestat`, `fileread` and `filewrite` of kernel/file.c for an open file. The file comes back with
-- its new offset; `none` is the result -1, and `n` is not negative. Pipes and devices are arguments:
-- `other` is what `piperead`, `pipewrite` or the device does.
use os2025_assignment.Base.{
  ℕ, zero, suc, ◌+◌, ◌-◌, ◌%◌, ◌^◌, Bool, not, Option, none, some, List, [], ltb, ◌==◌, ◌/=◌,
  if◌then◌else◌, min,
}
use os2025_assignment.Machine.{Cmd, Run, Void, ok, panic, pure, fail, modify, ◌>>=◌, ◌>>◌}
use os2025_assignment.File.{File, FileKind, unset, pipe, inode, device}
use os2025_assignment.Fs.{Fs}
use os2025_assignment.Fs.Content.{Stat, stati, readi, writei}
use os2025_assignment.Fs.Inodes.{ilock, iunlock}

-- NDEV of kernel/param.h
abbrev pub ndev : ℕ
ndev = 10

-- `copies` tells whether the result can be copied out.
unfoldable pub filestat : File → Bool → Cmd Fs (Option Stat)
filestat f copies =
    let found : Cmd Fs (Option Stat) = (do
      ilock f.ip
      st ← stati f.ip
      iunlock f.ip
      pure (if copies then some st else none)) in
    elim f.kind [ inode ↦ found | device ↦ found | _ ↦ pure none ]

abbrev pub advance : File → ℕ → File
advance f r = record f { off = (f.off + r) % 2 ^ 32 }

-- `has` tells whether the device has the operation.
module _ (other : FileKind → Cmd Fs (Option ℕ)) (has : ℕ → Bool) where
  unfoldable pub fileread : (ℕ → ℕ → Bool) → File → ℕ → ℕ → Cmd Fs (Option ℕ × File × List (ℕ × ℕ))
  fileread copyout f addr n = if not f.readable then pure (none, f, []) else elim f.kind [
    | pipe ↦ do r ← other pipe; pure (r, f, [])
    | device ↦
        if not (ltb f.major ndev)
        then pure (none, f, [])
        else if not (has f.major)
        then pure (none, f, [])
        else do r ← other device; pure (r, f, [])
    | inode ↦ do
      ilock f.ip
      r ← readi copyout f.ip addr f.off n
      iunlock f.ip
      elim (r.0) [ none ↦ pure (none, f, r.1) | some k ↦ pure (some k, advance f k, r.1) ]
    | unset ↦ fail
  ]

-- The file system with the log in front of it: how many operations are begun and not ended, and
-- how many were begun in all.
pub record Journal : Type 0 where
  pub fs : Fs
  pub ops : ℕ
  pub begun : ℕ

abbrev pub begin_op : Cmd Journal Void
begin_op = modify λ j. record j { ops = j.ops + 1; begun = j.begun + 1 }

abbrev pub end_op : Cmd Journal Void
end_op = modify λ j. record j { ops = j.ops - 1 }

-- what a run of the file system leaves
abbrev pub under_log : {A : Type 0} → Journal → Run Fs A → Run Journal A
under_log j panic = panic
under_log j (ok a fs) = ok a (record j { fs = fs })

abbrev pub on_fs : {A : Type 0} → Cmd Fs A → Cmd Journal A
on_fs m j = under_log j (m j.fs)

-- the bytes of one transaction
abbrev pub max_write : ℕ
max_write = 3072

module _ (copyin : ℕ → ℕ → Option (ℕ → ℕ)) where
  -- With `i` of `n` bytes written. A round that goes on has written a byte at least.
  unfoldable pub filewrite_loop : ℕ → File → ℕ → ℕ → ℕ → Cmd Journal (ℕ × File)
  filewrite_loop zero f addr i n = pure (i, f)
  filewrite_loop (suc fuel) f addr i n = if not (ltb i n) then pure (i, f) else do
    begin_op
    on_fs (ilock f.ip)
    r ← on_fs (writei copyin f.ip (addr + i) f.off (min (n - i) max_write))
    on_fs (iunlock f.ip)
    end_op
    elim r [
      | none ↦ pure (i, f)
      | some k ↦
          if k /= min (n - i) max_write
          then pure (i, advance f k)
          else filewrite_loop fuel (advance f k) addr (i + k) n
    ]

  unfoldable pub filewrite :
      (FileKind → Cmd Fs (Option ℕ)) → (ℕ → Bool) → File → ℕ → ℕ → Cmd Journal (Option ℕ × File)
  filewrite other has f addr n = if not f.writable then pure (none, f) else elim f.kind [
    | pipe ↦ do r ← on_fs (other pipe); pure (r, f)
    | device ↦
        if not (ltb f.major ndev)
        then pure (none, f)
        else if not (has f.major)
        then pure (none, f)
        else do r ← on_fs (other device); pure (r, f)
    | inode ↦ do
      done ← filewrite_loop (n + 1) f addr 0 n
      pure (if done.0 == n then some n else none, done.1)
    | unset ↦ fail
  ]
