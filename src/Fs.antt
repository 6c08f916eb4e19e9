-- ===== src/Fs.antt =====
-- kernel/fs.c: blocks, inodes, directories and path names. The functions run inside a transaction,
-- so that `bread`, `log_write` and `brelse` are reading and writing a block. A block holds bytes
-- (`bytes`) or, as an indirect block, block numbers (`numbers`); the bits of the free map and the
-- inodes on the disk are kept apart. An entry of `itable` has its index plus one as its pointer. No
-- other process has an inode locked; to lock one twice, which would sleep forever, panics here.
pub mod Content
pub mod Inodes
pub mod Dir
pub mod Path
pub mod Open
pub mod Locked
pub mod Filewrite
pub mod Alloc
pub mod Bytes
pub mod Written
pub mod File
pub mod Scan
pub mod Table
mod Checks
use os2025_assignment.Base.{
  ℕ, zero, suc, ◌+◌, ◌-◌, Bool, true, false, not, ◌&&◌, ltb, ◌==◌, ◌/=◌, if◌then◌else◌, update,
}
use os2025_assignment.Machine.{Cmd, Void, ok, pure, fail, gets, modify, when, ◌>>=◌, ◌>>◌}

abbrev pub bsize : ℕ
bsize = 1024

abbrev pub ndirect : ℕ
ndirect = 12

-- BSIZE / sizeof(uint)
abbrev pub nindirect : ℕ
nindirect = 256

abbrev pub maxfile : ℕ
maxfile = 268

abbrev pub ninode : ℕ
ninode = 50

-- T_DIR of kernel/stat.h
abbrev pub t_dir : ℕ
t_dir = 1

-- `struct dinode`; `kind` is its `type`.
pub record Dinode : Type 0 where
  pub kind : ℕ
  pub major : ℕ
  pub minor : ℕ
  pub nlink : ℕ
  pub size : ℕ
  pub addrs : ℕ → ℕ

-- `struct inode`; `copy` holds the fields that are copied from the disk.
pub record Inode : Type 0 where
  pub dev : ℕ
  pub inum : ℕ
  pub ref : ℕ
  pub locked : Bool
  pub valid : Bool
  pub copy : Dinode

-- `blocks` and `ninodes` are `sb.size` and `sb.ninodes`.
pub record Fs : Type 0 where
  pub blocks : ℕ
  pub ninodes : ℕ
  pub used : ℕ → Bool
  pub dinodes : ℕ → Dinode
  pub bytes : ℕ → ℕ → ℕ
  pub numbers : ℕ → ℕ → ℕ
  pub itable : ℕ → Inode

abbrev pub blank_dinode : Dinode
blank_dinode = record { kind = 0; major = 0; minor = 0; nlink = 0; size = 0; addrs = λ _. 0 }

abbrev pub get_inode : ℕ → Cmd Fs Inode
get_inode ip = gets λ s. s.itable (ip - 1)

abbrev pub set_inode : ℕ → (Inode → Inode) → Cmd Fs Void
set_inode ip f = modify λ s. record s { itable = update s.itable (ip - 1) (f (s.itable (ip - 1))) }

-- a change of the fields that are copied from the disk
abbrev pub set_copy : ℕ → (Dinode → Dinode) → Cmd Fs Void
set_copy ip f = set_inode ip λ i. record i { copy = f i.copy }

unfoldable pub bzero : ℕ → Fs → Fs
bzero b s = record s { bytes = update s.bytes b (λ _. 0); numbers = update s.numbers b (λ _. 0) }

-- The two loops of `balloc` run through all blocks of the disk; `n` are left from `b` on.
unfoldable pub balloc_loop : ℕ → ℕ → Cmd Fs ℕ
balloc_loop zero b = pure 0
balloc_loop (suc n) b = do
  taken ← gets λ s. s.used b
  if taken
      then balloc_loop n (b + 1)
      else do modify λ s. record s { used = update s.used b true }; modify (bzero b); pure b

unfoldable pub balloc : Cmd Fs ℕ
balloc s = balloc_loop s.blocks 0 s

unfoldable pub bfree : ℕ → Cmd Fs Void
bfree b = do
  taken ← gets λ s. s.used b
  when (not taken) fail
  modify λ s. record s { used = update s.used b false }

unfoldable pub iupdate : ℕ → Cmd Fs Void
iupdate ip = do i ← get_inode ip; modify λ s. record s { dinodes = update s.dinodes i.inum i.copy }
