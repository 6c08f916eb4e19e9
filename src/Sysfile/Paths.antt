-- ===== src/Sysfile/Paths.antt =====
-- `sys_unlink`, `sys_open`, `sys_mkdir`, `sys_mknod` and `sys_chdir` of kernel/sysfile.c.
use os2025_assignment.Base.{
  ℕ, ◌^◌, Bool, true, false, not, ◌&&◌, ◌||◌, Option, none, some, List, ltb, leb, ◌==◌, ◌/=◌,
  if◌then◌else◌,
}
use os2025_assignment.Machine.{Cmd, Void, pure, fail, gets, modify, when, ◌>>=◌, ◌>>◌}
use os2025_assignment.Str.{Bytes}
use os2025_assignment.File.{File, inode, device}
use os2025_assignment.Fs.{Fs, Inode, t_dir, get_inode}
use os2025_assignment.Fs.Content.{itrunc, writei}
use os2025_assignment.Fs.Inodes.{ilock, iunlock, iput, iunlockput}
use os2025_assignment.Fs.Dir.{dirent_size, namecmp, is_same, dirlookup, namei, nameiparent}
use os2025_assignment.Fs.Open.{ndev}
use os2025_assignment.Sysfile.{Sys, begin_op, end_op, in_fs, open_file, put_file}
use os2025_assignment.Sysfile.Names.{
  t_file, t_device, has_flag, dot, dotdot, drop_link, isdirempty, create,
}

abbrev is_whole : Option ℕ → Bool
is_whole none = false
is_whole (some n) = n == dirent_size

-- the entry at `off` is cleared, and both inodes are released
unfoldable pub unlink_entry : ℕ → ℕ → ℕ → Cmd Fs Void
unlink_entry dp ip off = do
  done ← writei (λ src m. some λ i. 0) dp 0 off dirent_size
  when (not (is_whole done)) fail
  i ← get_inode ip
  when (i.copy.kind == t_dir) (drop_link dp)
  iunlockput dp
  drop_link ip
  iunlockput ip

-- the directory, which is not empty, and the links are checked
unfoldable pub may_unlink : ℕ → Cmd Fs Bool
may_unlink ip = do
  i ← get_inode ip
  when ((i.copy.nlink == 0) || leb (2 ^ 15) i.copy.nlink) fail
  if i.copy.kind /= t_dir then pure true else isdirempty ip

-- what `sys_open` stores in the file
abbrev pub opened : Inode → ℕ → ℕ → File → File
opened i ip omode f =
    let f' =
      if i.copy.kind == t_device
      then record f { kind = device; major = i.copy.major }
      else record f { kind = inode; off = 0 } in
    record f' {
      ip = ip;
      readable = not (has_flag omode 1);
      writable = has_flag omode 1 || has_flag omode 2;
    }

module _ (junk before : Bytes) {W : Type 0} where
  -- the label `bad` of `sys_unlink`
  unfoldable pub unlink_bad : ℕ → Cmd (Sys W) (Option ℕ)
  unlink_bad dp = do in_fs (iunlockput dp); end_op; pure none

  unfoldable pub sys_unlink : Option (List ℕ) → Cmd (Sys W) (Option ℕ)
  sys_unlink none = pure none
  sys_unlink (some path) = do
    begin_op
    cwd ← gets λ s. s.cwd
    parent ← in_fs (nameiparent cwd path junk)
    elim parent [
      | none ↦ do end_op; pure none
      | some (dp, name) ↦ do
        in_fs (ilock dp)
        if is_same (namecmp name dot) || is_same (namecmp name dotdot) then unlink_bad dp else do
          found ← in_fs (dirlookup dp name)
          elim found [
            | none ↦ unlink_bad dp
            | some (ip, off) ↦ do
              in_fs (ilock ip)
              may ← in_fs (may_unlink ip)
              if not may
                  then (do in_fs (iunlockput ip); unlink_bad dp)
                  else do in_fs (unlink_entry dp ip off); end_op; pure (some 0)
          ]
    ]

  -- the inode to open, locked; `none` after `end_op`
  unfoldable pub open_inode : List ℕ → ℕ → Cmd (Sys W) (Option ℕ)
  open_inode path omode = do
    cwd ← gets λ s. s.cwd
    if has_flag omode 512
        then (do
          made ← in_fs (create junk before cwd path t_file 0 0)
          elim made [ none ↦ do end_op; pure none | some ip ↦ pure (some ip) ])
        else (do
          found ← in_fs (namei cwd path junk)
          elim found [
            | none ↦ do end_op; pure none
            | some (ip, _) ↦ do
              in_fs (ilock ip)
              i ← in_fs (get_inode ip)
              if (i.copy.kind == t_dir) && (omode /= 0)
                  then (do in_fs (iunlockput ip); end_op; pure none)
                  else pure (some ip)
          ])

  module _ (pipeclose : ℕ → Bool → W → W) where
    unfoldable pub sys_open : Option (List ℕ) → ℕ → Cmd (Sys W) (Option ℕ)
    sys_open none omode = pure none
    sys_open (some path) omode = do
      begin_op
      found ← open_inode path omode
      elim found [
        | none ↦ pure none
        | some ip ↦ do
          i ← in_fs (get_inode ip)
          if (i.copy.kind == t_device) && not (ltb i.copy.major ndev)
              then (do in_fs (iunlockput ip); end_op; pure none)
              else do
                new ← open_file pipeclose
                elim new [
                  | none ↦ do in_fs (iunlockput ip); end_op; pure none
                  | some (f, fd) ↦ do
                    file ← gets λ s. s.ftable f
                    put_file f (opened i ip omode file)
                    when (has_flag omode 1024 && (i.copy.kind == t_file)) (in_fs (itrunc ip))
                    in_fs (iunlock ip)
                    end_op
                    pure (some fd)
                ]
      ]

  -- `sys_mkdir` and `sys_mknod` behind the fetching of their arguments
  unfoldable pub make_node : Option (List ℕ) → ℕ → ℕ → ℕ → Cmd (Sys W) (Option ℕ)
  make_node path kind major minor = do
    begin_op
    cwd ← gets λ s. s.cwd
    made ← elim path [
      | none ↦ pure none
      | some p ↦ in_fs (create junk before cwd p kind major minor)
    ]
    elim made [
      | none ↦ do end_op; pure none
      | some ip ↦ do in_fs (iunlockput ip); end_op; pure (some 0)
    ]

  unfoldable pub sys_mkdir : Option (List ℕ) → Cmd (Sys W) (Option ℕ)
  sys_mkdir path = make_node path t_dir 0 0

  unfoldable pub sys_mknod : Option (List ℕ) → ℕ → ℕ → Cmd (Sys W) (Option ℕ)
  sys_mknod path major minor = make_node path t_device major minor

  unfoldable pub sys_chdir : Option (List ℕ) → Cmd (Sys W) (Option ℕ)
  sys_chdir path = do
    begin_op
    cwd ← gets λ s. s.cwd
    found ← elim path [ none ↦ pure none | some p ↦ in_fs (namei cwd p junk) ]
    elim found [
      | none ↦ do end_op; pure none
      | some (ip, _) ↦ do
        in_fs (ilock ip)
        i ← in_fs (get_inode ip)
        if i.copy.kind /= t_dir then (do in_fs (iunlockput ip); end_op; pure none) else do
          in_fs (iunlock ip)
          in_fs (iput cwd)
          end_op
          modify λ s. record s { cwd = ip }
          pure (some 0)
    ]
