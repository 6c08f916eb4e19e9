-- ===== src/Sysfile/Names.antt =====
-- The system calls on path names in kernel/sysfile.c. `junk` and `before` are what the arrays `name`
-- and `de.name` on the stack hold before. A `short` is its 16-bit pattern.
use os2025_assignment.Base.{
  ℕ, zero, suc, ◌+◌, ◌-◌, ◌*◌, ◌/◌, ◌%◌, ◌^◌, Bool, true, false, not, ◌&&◌, ◌||◌, Option, none,
  some, List, ltb, ◌==◌, ◌/=◌, if◌then◌else◌,
}
use os2025_assignment.Machine.{Cmd, Void, pure, gets, when, ◌>>=◌, ◌>>◌}
use os2025_assignment.Str.{Bytes}
use os2025_assignment.Fs.{Fs, t_dir, get_inode, set_copy, iupdate}
use os2025_assignment.Fs.Inodes.{ialloc, ilock, iunlock, iput, iunlockput}
use os2025_assignment.Fs.Dir.{
  dirent_size, entry_inum, read_entry, dirlookup, dirlink, namei, nameiparent,
}
use os2025_assignment.Sysfile.{Sys, begin_op, end_op, in_fs}

-- T_FILE and T_DEVICE
abbrev pub t_file : ℕ
t_file = 2

abbrev pub t_device : ℕ
t_device = 3

-- O_WRONLY, O_RDWR, O_CREATE and O_TRUNC
abbrev pub has_flag : ℕ → ℕ → Bool
has_flag omode flag = omode / flag % 2 == 1

-- the strings "." and ".."
abbrev pub dot : Bytes
dot i = if i == 0 then b'.' else 0

abbrev pub dotdot : Bytes
dotdot i = if ltb i 2 then b'.' else 0

abbrev pub add_link : ℕ → Cmd Fs Void
add_link ip = do set_copy ip λ d. record d { nlink = (d.nlink + 1) % 2 ^ 16 }; iupdate ip

abbrev pub drop_link : ℕ → Cmd Fs Void
drop_link ip = do set_copy ip λ d. record d { nlink = (d.nlink + 2 ^ 16 - 1) % 2 ^ 16 }; iupdate ip

-- the loop, with `n` entries left from `off` on
unfoldable pub empty_loop : ℕ → ℕ → ℕ → Cmd Fs Bool
empty_loop zero off dp = pure true
empty_loop (suc n) off dp = do
  de ← read_entry dp off
  if entry_inum de /= 0 then pure false else empty_loop n (off + dirent_size) dp

unfoldable pub isdirempty : ℕ → Cmd Fs Bool
isdirempty dp = do
  d ← get_inode dp
  empty_loop ((d.copy.size - 2 * dirent_size + dirent_size - 1) / dirent_size) (2 * dirent_size) dp

module _ (junk before : Bytes) where
  -- from the label `fail` on
  unfoldable pub create_fail : ℕ → ℕ → Cmd Fs (Option ℕ)
  create_fail dp ip = do
    set_copy ip λ d. record d { nlink = 0 }
    iupdate ip
    iunlockput ip
    iunlockput dp
    pure none

  -- the entries `.` and `..` of a new directory
  unfoldable pub dot_entries : ℕ → ℕ → ℕ → Cmd Fs Bool
  dot_entries kind dp ip = if kind /= t_dir then pure true else do
    i ← get_inode ip
    self ← dirlink before ip dot i.inum
    if not self then pure false else do d ← get_inode dp; dirlink before ip dotdot d.inum

  -- from the call of `ialloc` on, with `dp` locked and no entry for the name
  unfoldable pub create_new : ℕ → Bytes → ℕ → ℕ → ℕ → Cmd Fs (Option ℕ)
  create_new dp name kind major minor = do
    d ← get_inode dp
    ip ← ialloc d.dev kind
    if ip == 0 then (do iunlockput dp; pure none) else do
      ilock ip
      set_copy ip λ d. record d { major = major % 2 ^ 16; minor = minor % 2 ^ 16; nlink = 1 }
      iupdate ip
      dots ← dot_entries kind dp ip
      if not dots then create_fail dp ip else do
        i ← get_inode ip
        linked ← dirlink before dp name i.inum
        if not linked
            then create_fail dp ip
            else do when (kind == t_dir) (add_link dp); iunlockput dp; pure (some ip)

  unfoldable pub create : ℕ → List ℕ → ℕ → ℕ → ℕ → Cmd Fs (Option ℕ)
  create cwd path kind major minor = do
    parent ← nameiparent cwd path junk
    elim parent [
      | none ↦ pure none
      | some (dp, name) ↦ do
        ilock dp
        found ← dirlookup dp name
        elim found [
          | none ↦ create_new dp name kind major minor
          | some (ip, _) ↦ do
            iunlockput dp
            ilock ip
            i ← get_inode ip
            if (kind == t_file) && ((i.copy.kind == t_file) || (i.copy.kind == t_device))
                then pure (some ip)
                else (do iunlockput ip; pure none)
        ]
    ]

  -- the entry for `ip` in the directory
  unfoldable pub link_entry : ℕ → ℕ → Bytes → Cmd Fs Bool
  link_entry ip dp name = do
    d ← get_inode dp
    i ← get_inode ip
    if d.dev /= i.dev then pure false else dirlink before dp name i.inum

  module _ {W : Type 0} where
    -- the label `bad` of `sys_link`
    unfoldable pub link_bad : ℕ → Cmd (Sys W) (Option ℕ)
    link_bad ip = do
      in_fs (ilock ip)
      in_fs (drop_link ip)
      in_fs (iunlockput ip)
      end_op
      pure none

    unfoldable pub sys_link : Option (List ℕ) → Option (List ℕ) → Cmd (Sys W) (Option ℕ)
    sys_link none new = pure none
    sys_link (some old) none = pure none
    sys_link (some old) (some new) = do
      begin_op
      cwd ← gets λ s. s.cwd
      found ← in_fs (namei cwd old junk)
      elim found [
        | none ↦ do end_op; pure none
        | some (ip, _) ↦ do
          in_fs (ilock ip)
          i ← in_fs (get_inode ip)
          if i.copy.kind == t_dir then (do in_fs (iunlockput ip); end_op; pure none) else do
            in_fs (add_link ip)
            in_fs (iunlock ip)
            parent ← in_fs (nameiparent cwd new junk)
            elim parent [
              | none ↦ link_bad ip
              | some (dp, name) ↦ do
                in_fs (ilock dp)
                linked ← in_fs (link_entry ip dp name)
                if not linked
                    then (do in_fs (iunlockput dp); link_bad ip)
                    else do in_fs (iunlockput dp); in_fs (iput ip); end_op; pure (some 0)
            ]
      ]
