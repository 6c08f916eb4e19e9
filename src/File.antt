-- ===== src/File.antt =====
-- kernel/file.c: the table of open files. `ftable.file` is a function from the index of an entry.
use os2025_assignment.Base.{
  ℕ, zero, suc, ◌+◌, ◌-◌, Bool, Option, none, some, ltb, ◌==◌, if◌then◌else◌, update,
}

-- FD_NONE, FD_PIPE, FD_INODE, FD_DEVICE
pub data FileKind : Type 0 where
  unset pipe inode device : FileKind

pub record File : Type 0 where
  pub kind : FileKind
  pub ref : ℕ
  pub readable : Bool
  pub writable : Bool
  pub pipe_at : ℕ
  pub ip : ℕ
  pub off : ℕ
  pub major : ℕ

abbrev pub Ftable : Type 0
Ftable = ℕ → File

abbrev pub nfile : ℕ
nfile = 100

-- the scan, with `n` entries left from index `i` on
unfoldable pub filealloc_loop : ℕ → ℕ → Ftable → Option ℕ × Ftable
filealloc_loop zero i t = (none, t)
filealloc_loop (suc n) i t =
    let rest = filealloc_loop n (i + 1) t in
    if (t i).ref == 0 then (some i, update t i (record (t i) { ref = 1 })) else rest

unfoldable pub filealloc : Ftable → Option ℕ × Ftable
unfolding filealloc_loop
filealloc t = filealloc_loop nfile 0 t

-- `none` is the panic.
unfoldable pub filedup : ℕ → Ftable → Option Ftable
filedup f t =
    if ltb (t f).ref 1 then none else some (update t f (record (t f) { ref = (t f).ref + 1 }))

-- The part of `fileclose` under the table's lock: `none` is the panic. The entry as it stood comes
-- back (`ff`) if this was the last reference.
unfoldable pub fileclose : ℕ → Ftable → Option (Option File × Ftable)
fileclose f t =
    if ltb (t f).ref 1
    then none
    else let left = (t f).ref - 1 in
      if ltb 0 left
      then some (none, update t f (record (t f) { ref = left }))
      else some (some (t f), update t f (record (t f) { ref = 0; kind = unset }))
