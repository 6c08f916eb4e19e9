-- ===== src/Fs/Inodes.antt =====
-- The table of inodes in kernel/fs.c.
use os2025_assignment.Base.{
  ℕ, zero, suc, ◌+◌, ◌-◌, true, false, not, ◌&&◌, ◌||◌, ltb, ◌==◌, ◌/=◌, if◌then◌else◌, update,
}
use os2025_assignment.Machine.{Cmd, Void, pure, fail, gets, modify, when, ◌>>=◌, ◌>>◌}
use os2025_assignment.Fs.{Fs, Inode, ninode, blank_dinode, get_inode, set_inode, set_copy, iupdate}
use os2025_assignment.Fs.Content.{itrunc}

-- how the loop of `iget` ends: at the entry of the inode, or with `empty`, a pointer or 0
pub data Search : Type 0 where
  hit : ℕ → Search
  miss : ℕ → Search

-- with `n` entries left from the pointer `ip` on
unfoldable pub iget_loop : ℕ → ℕ → ℕ → ℕ → ℕ → (ℕ → Inode) → Search
iget_loop zero ip empty dev inum t = miss empty
iget_loop (suc n) ip empty dev inum t =
    let i = t (ip - 1) in
    let rest =
      iget_loop n (ip + 1) (if (empty == 0) && (i.ref == 0) then ip else empty) dev inum t in
    if ltb 0 i.ref && ((i.dev == dev) && (i.inum == inum)) then hit ip else rest

unfoldable pub iget : ℕ → ℕ → Cmd Fs ℕ
iget dev inum = do
  found ← gets λ s. iget_loop ninode 1 0 dev inum s.itable
  elim found [
    | hit ip ↦ do set_inode ip λ i. record i { ref = i.ref + 1 }; pure ip
    | miss empty ↦ if empty == 0 then fail else do
      set_inode empty λ i. record i { dev = dev; inum = inum; ref = 1; valid = false }
      pure empty
  ]

unfoldable pub idup : ℕ → Cmd Fs ℕ
idup ip = do set_inode ip λ i. record i { ref = i.ref + 1 }; pure ip

-- the loop, with `n` inodes left from `inum` on
unfoldable pub ialloc_loop : ℕ → ℕ → ℕ → ℕ → Cmd Fs ℕ
ialloc_loop zero inum dev kind = pure 0
ialloc_loop (suc n) inum dev kind = do
  d ← gets λ s. s.dinodes inum
  if d.kind /= 0 then ialloc_loop n (inum + 1) dev kind else do
    modify λ s. record s { dinodes = update s.dinodes inum (record blank_dinode { kind = kind }) }
    iget dev inum

unfoldable pub ialloc : ℕ → ℕ → Cmd Fs ℕ
ialloc dev kind s = ialloc_loop (s.ninodes - 1) 1 dev kind s

-- `acquiresleep` and `releasesleep`
abbrev pub lock_inode : ℕ → Cmd Fs Void
lock_inode ip = do
  i ← get_inode ip
  when i.locked fail
  set_inode ip λ i. record i { locked = true }

abbrev pub unlock_inode : ℕ → Cmd Fs Void
unlock_inode ip = set_inode ip λ i. record i { locked = false }

unfoldable pub ilock : ℕ → Cmd Fs Void
ilock ip = do
  i ← get_inode ip
  when ((ip == 0) || ltb i.ref 1) fail
  lock_inode ip
  when (not i.valid) (do
    d ← gets λ s. s.dinodes i.inum
    set_inode ip λ i. record i { copy = d; valid = true }
    when (d.kind == 0) fail)

unfoldable pub iunlock : ℕ → Cmd Fs Void
iunlock ip = do
  i ← get_inode ip
  when ((ip == 0) || (not i.locked || ltb i.ref 1)) fail
  unlock_inode ip

-- The caller holds a reference, so that `ref` is not 0.
unfoldable pub iput : ℕ → Cmd Fs Void
iput ip = do
  i ← get_inode ip
  when ((i.ref == 1) && (i.valid && (i.copy.nlink == 0))) (do
    lock_inode ip
    itrunc ip
    set_copy ip λ d. record d { kind = 0 }
    iupdate ip
    set_inode ip λ i. record i { valid = false }
    unlock_inode ip)
  set_inode ip λ i. record i { ref = i.ref - 1 }

unfoldable pub iunlockput : ℕ → Cmd Fs Void
iunlockput ip = do iunlock ip; iput ip
