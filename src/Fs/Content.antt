-- ===== src/Fs/Content.antt =====
-- The content of inodes in kernel/fs.c: `bmap`, `itrunc`, `stati`, `readi` and `writei`.
use os2025_assignment.Base.{
  ℕ, zero, suc, ◌+◌, ◌-◌, ◌*◌, ◌/◌, ◌%◌, ◌^◌, Bool, not, ◌||◌, Option, none, some, List, [], ◌++◌,
  ltb, ◌==◌, ◌/=◌, if◌then◌else◌, update, slice, within, min,
}
use os2025_assignment.Machine.{Cmd, Void, pure, fail, gets, modify, when, ◌>>=◌, ◌>>◌}
use os2025_assignment.Fs.{
  Fs, bsize, ndirect, nindirect, maxfile, get_inode, set_copy, balloc, bfree, iupdate,
}

-- Load the indirect block, allocating it if necessary: its number, or 0.
unfoldable pub indirect_block : ℕ → Cmd Fs ℕ
indirect_block ip = do
  i ← get_inode ip
  if i.copy.addrs ndirect /= 0 then pure (i.copy.addrs ndirect) else do
    addr ← balloc
    when (addr /= 0) (set_copy ip λ d. record d { addrs = update d.addrs ndirect addr })
    pure addr

unfoldable pub bmap : ℕ → ℕ → Cmd Fs ℕ
bmap ip bn =
    if ltb bn ndirect
    then (do
      i ← get_inode ip
      if i.copy.addrs bn /= 0 then pure (i.copy.addrs bn) else do
        addr ← balloc
        when (addr /= 0) (set_copy ip λ d. record d { addrs = update d.addrs bn addr })
        pure addr)
    else if ltb (bn - ndirect) nindirect
    then (do
      block ← indirect_block ip
      if block == 0 then pure 0 else do
        addr ← gets λ s. s.numbers block (bn - ndirect)
        if addr /= 0 then pure addr else do
          addr ← balloc
          when (addr /= 0) (
              modify λ s. record s {
                numbers = update s.numbers block (update (s.numbers block) (bn - ndirect) addr);
              })
          pure addr)
    else fail

-- the loop over the direct blocks, with `n` left from `i` on
unfoldable pub free_direct : ℕ → ℕ → ℕ → Cmd Fs Void
free_direct zero i ip = pure tt
free_direct (suc n) i ip = do
  p ← get_inode ip
  when (p.copy.addrs i /= 0)
      (do bfree (p.copy.addrs i); set_copy ip λ d. record d { addrs = update d.addrs i 0 })
  free_direct n (i + 1) ip

-- the loop over the entries of the indirect block
unfoldable pub free_indirect : ℕ → ℕ → ℕ → Cmd Fs Void
free_indirect zero j block = pure tt
free_indirect (suc n) j block = do
  addr ← gets λ s. s.numbers block j
  when (addr /= 0) (bfree addr)
  free_indirect n (j + 1) block

unfoldable pub itrunc : ℕ → Cmd Fs Void
itrunc ip = do
  free_direct ndirect 0 ip
  p ← get_inode ip
  when (p.copy.addrs ndirect /= 0) (do
    free_indirect nindirect 0 (p.copy.addrs ndirect)
    bfree (p.copy.addrs ndirect)
    set_copy ip λ d. record d { addrs = update d.addrs ndirect 0 })
  set_copy ip λ d. record d { size = 0 }
  iupdate ip

-- `struct stat`
pub record Stat : Type 0 where
  pub dev : ℕ
  pub ino : ℕ
  pub kind : ℕ
  pub nlink : ℕ
  pub size : ℕ

unfoldable pub stati : ℕ → Cmd Fs Stat
stati ip = do
  i ← get_inode ip
  pure (record {
    dev = i.dev;
    ino = i.inum;
    kind = i.copy.kind;
    nlink = i.copy.nlink;
    size = i.copy.size;
  })

-- the bytes of one round
abbrev pub chunk : ℕ → ℕ → ℕ
chunk off left = min left (bsize - off % bsize)

-- the bytes from `from` on of a block, each with the address from `dst` on that it is copied to
abbrev pub copied : (ℕ → ℕ) → ℕ → ℕ → ℕ → List (ℕ × ℕ)
copied block dst from m = slice (λ b. (dst + (b - from), block b)) from m

-- `copyout dst m` tells whether `m` bytes can be copied to `dst`. The bytes that are copied come
-- back in order, each with its address; `none` is the result -1.
module _ (copyout : ℕ → ℕ → Bool) (ip : ℕ) where
  -- With `left` bytes left; a round copies a byte at least, so that as many rounds are enough.
  unfoldable pub readi_loop : ℕ → ℕ → ℕ → ℕ → ℕ → Cmd Fs (Option ℕ × List (ℕ × ℕ))
  readi_loop zero tot dst off left = pure (some tot, [])
  readi_loop (suc fuel) tot dst off left = if left == 0 then pure (some tot, []) else do
    addr ← bmap ip (off / bsize)
    if addr == 0 then pure (some tot, []) else do
      block ← gets λ s. s.bytes addr
      if not (copyout dst (chunk off left)) then pure (none, []) else do
        rest ←
            readi_loop fuel (tot + chunk off left) (dst + chunk off left) (off + chunk off left)
              (left - chunk off left)
        pure (rest.0, copied block dst (off % bsize) (chunk off left) ++ rest.1)

  unfoldable pub readi : ℕ → ℕ → ℕ → Cmd Fs (Option ℕ × List (ℕ × ℕ))
  readi dst off n = do
    i ← get_inode ip
    let size = i.copy.size
    if ltb size off || ltb ((off + n) % 2 ^ 32) off
        then pure (some 0, [])
        else readi_loop n 0 dst off (if ltb size (off + n) then size - off else n)

-- `copyin src m` gives `m` bytes from `src`, or fails and leaves the block as it was.
module _ (copyin : ℕ → ℕ → Option (ℕ → ℕ)) (ip : ℕ) where
  -- what the loop has copied, and the position behind it
  unfoldable pub writei_loop : ℕ → ℕ → ℕ → ℕ → ℕ → Cmd Fs (ℕ × ℕ)
  writei_loop zero tot src off left = pure (tot, off)
  writei_loop (suc fuel) tot src off left = if left == 0 then pure (tot, off) else do
    addr ← bmap ip (off / bsize)
    if addr == 0 then pure (tot, off) else elim (copyin src (chunk off left)) [
      | none ↦ pure (tot, off)
      | some new ↦ do
        modify λ s. record s {
          bytes = update s.bytes addr λ b.
              if within (off % bsize) (chunk off left) b
              then new (b - off % bsize)
              else s.bytes addr b;
        }
        writei_loop fuel (tot + chunk off left) (src + chunk off left) (off + chunk off left)
            (left - chunk off left)
    ]

  unfoldable pub writei : ℕ → ℕ → ℕ → Cmd Fs (Option ℕ)
  writei src off n = do
    i ← get_inode ip
    if ltb i.copy.size off || ltb ((off + n) % 2 ^ 32) off
        then pure none
        else if ltb (maxfile * bsize) (off + n)
        then pure none
        else do
          done ← writei_loop n 0 src off n
          when (ltb i.copy.size (done.1)) (set_copy ip λ d. record d { size = done.1 })
          iupdate ip
          pure (some (done.0))
