-- ===== src/Fs/File.antt =====
-- `writei` as a whole, and that `readi` reads what it has written.
use os2025_assignment.Base.{
  ℕ, ◌+◌, ◌-◌, ◌*◌, ◌/◌, ◌%◌, ◌^◌, ◌≤◌, ◌<◌, ◌≡◌, ◌≢◌, refl, ◌∙◌, ap, ap₂, inl, inr, Bool, false,
  ◌&&◌, ◌||◌, Option, some, ltb, ◌/=◌, if◌then◌else◌, Bool-cases, arith, update, update_self, slice,
  List, min,
}
use os2025_assignment.Machine.{ok}
use os2025_assignment.Fs.{Fs, Inode, bsize, maxfile, iupdate}
use os2025_assignment.Fs.Content.{writei_loop, writei, readi}
use os2025_assignment.Fs.Bytes.{
  block_of, byte_of, HasBlocks, CanTake, placed, readi_lem, read_result, slice_eq,
}
use os2025_assignment.Fs.Written.{IsApart, Sourced, written, BytesAfter, ended, writei_loop_lem}

-- the state with another size of the file
abbrev pub resized : ℕ → ℕ → Fs → Fs
resized ip k s =
    let i = s.itable (ip - 1) in
    record s { itable = update s.itable (ip - 1) (record i { copy = record i.copy { size = k } }) }

-- the state behind `iupdate`
abbrev pub updated : ℕ → Fs → Fs
updated ip s = record s {
  dinodes = update s.dinodes (s.itable (ip - 1)).inum (s.itable (ip - 1)).copy;
}

abbrev pub sized : Inode → ℕ → Inode
sized i k = record i { copy = record i.copy { size = k } }

block_of-resized : (ip k bn : ℕ) (s : Fs) → block_of ip (resized ip k s) bn ≡ block_of ip s bn
block_of-resized ip k bn s =
    ap
      (λ d.
        if ltb bn 12
        then d.addrs bn
        else if ltb (bn - 12) 256 && (d.addrs 12 /= 0)
        then s.numbers (d.addrs 12) (bn - 12)
        else 0)
      (ap (λ i. i.copy) (update_self s.itable (ip - 1) _))

-- What `writei` leaves: the file has the same blocks, a size that reaches behind the last byte that
-- was written, and the new bytes in its blocks; the entry's reference count and flags are kept.
pub record IsWritten (source : ℕ → ℕ) (ip src off n : ℕ) (s s' : Fs) : Type 0 where
  pub same_blocks : (bn : ℕ) → block_of ip s' bn ≡ block_of ip s bn
  pub reaches : off + n ≤ (s'.itable (ip - 1)).copy.size
  pub same_ref : (s'.itable (ip - 1)).ref ≡ (s.itable (ip - 1)).ref
  pub same_locked : (s'.itable (ip - 1)).locked ≡ (s.itable (ip - 1)).locked
  pub same_valid : (s'.itable (ip - 1)).valid ≡ (s.itable (ip - 1)).valid
  pub new_bytes :
      (i : ℕ)
      → block_of ip s (i / bsize) ≢ 0
      → byte_of ip s' i ≡ written source src off n (byte_of ip s) i

written_at :
    (source : ℕ → ℕ) (src off n i x y : ℕ) (old : ℕ → ℕ)
    → i < n
    → x ≡ off + i
    → y ≡ src + i
    → written source src off n old x ≡ source y
written_at source src off n i x y old l e e' =
    let q : source (src + (x - off)) ≡ source y = ap source (omega arith) in ground (arith, q)

-- the bytes of `source` from `src` on, each with its address from `dst` on
abbrev pub taken : (ℕ → ℕ) → ℕ → ℕ → ℕ → List (ℕ × ℕ)
taken source src dst n = slice (λ j. (dst + (j - src), source j)) src n

-- `readi` behind a write
read_back :
    (source : ℕ → ℕ) (ip : ℕ) (copyout : ℕ → ℕ → Bool)
    → (src dst off n : ℕ) (s s' : Fs) → CanTake copyout dst n
    → off + n ≤ maxfile * bsize
    → HasBlocks ip s off n
    → IsWritten source ip src off n s s'
    → readi copyout ip dst off n s' ≡ read_result n (taken source src dst n) s'
read_back source ip copyout src dst off n s s' can u all w =
    let size = (s'.itable (ip - 1)).copy.size in
    let reach : off + n ≤ size = w.reaches in
    let m_eq : min n (size - off) ≡ n = omega arith in
    let blocks : HasBlocks ip s' off n = λ i l g. rw (w.same_blocks (i / bsize)) (all i l g) in
    readi_lem copyout ip dst off n s' (omega arith) (omega arith) (rw m_eq can) (rw m_eq blocks)
    ∙ ap (λ k. read_result k (placed ip s' dst off k) s') m_eq
    ∙ ap (λ xs. read_result n xs s')
        (slice_eq _ _ off src n λ i x y l e e'.
          ap₂ (λ d v. (d, v)) (omega arith)
            (w.new_bytes x (all x (omega arith) (omega arith))
              ∙ written_at source src off n i x y (byte_of ip s) l e e'))

module _ (copyin : ℕ → ℕ → Option (ℕ → ℕ)) (source : ℕ → ℕ) (ip : ℕ) where
  -- from the loop to the whole
  behind_loop :
      (src off n : ℕ) (s : Fs) (bytes : ℕ → ℕ → ℕ)
      → off ≤ (s.itable (ip - 1)).copy.size
      → off + n ≤ maxfile * bsize
      → writei_loop copyin ip n 0 src off n s ≡ ok (n, off + n) (record s { bytes = bytes })
      → BytesAfter source ip src off n s bytes
      → (s' : Fs) × (writei copyin ip src off n s ≡ ok (some n) s')
        × IsWritten source ip src off n s s'
  unfolding writei iupdate
  behind_loop src off n s bytes h u run after =
      let size = (s.itable (ip - 1)).copy.size in
      let small : (ltb size off || ltb ((off + n) % 2 ^ 32) off) ≡ false = ground arith in
      let fits : ltb (maxfile * bsize) (off + n) ≡ false = ground arith in
      elim (Bool-cases (ltb size (off + n))) [
        | inl grows ↦ (
          updated ip (resized ip (off + n) (record s { bytes = bytes })),
          rw (small, fits, run, grows) refl,
          record {
            same_blocks = λ bn. block_of-resized ip (off + n) bn s;
            reaches =
                rw (update_self s.itable (ip - 1) (sized (s.itable (ip - 1)) (off + n)))
                  (omega arith);
            same_ref =
                ap (λ i. i.ref)
                  (update_self s.itable (ip - 1) (sized (s.itable (ip - 1)) (off + n)));
            same_locked =
                ap (λ i. i.locked)
                  (update_self s.itable (ip - 1) (sized (s.itable (ip - 1)) (off + n)));
            same_valid =
                ap (λ i. i.valid)
                  (update_self s.itable (ip - 1) (sized (s.itable (ip - 1)) (off + n)));
            new_bytes = λ i there.
                ap (λ b. bytes b (i % bsize)) (block_of-resized ip (off + n) (i / bsize) s)
                ∙ after i there;
          },
        )
        | inr stays ↦ (
          updated ip (record s { bytes = bytes }),
          rw (small, fits, run, stays) refl,
          record {
            same_blocks = λ bn. refl;
            reaches = ground arith;
            same_ref = refl;
            same_locked = refl;
            same_valid = refl;
            new_bytes = after;
          },
        )
      ]

  pub writei_lem :
      (src off n : ℕ) (s : Fs)
      → Sourced copyin source src n
      → off ≤ (s.itable (ip - 1)).copy.size
      → off + n ≤ maxfile * bsize
      → IsApart ip s
      → HasBlocks ip s off n
      → (s' : Fs) × (writei copyin ip src off n s ≡ ok (some n) s')
        × IsWritten source ip src off n s s'
  writei_lem src off n s works h u apart all =
      let (bytes, run, after) =
        writei_loop_lem copyin source ip n 0 src off n s (omega arith) works apart all in
      behind_loop src off n s bytes h u
        (run ∙ ap (λ k. ended k (off + n) (record s { bytes = bytes })) (omega arith)) after

  -- If `copyin` works for each part of the `n` bytes from `src` on and `copyout` for each part of
  -- the `n` addresses from `dst` on, the offset lies within the file, the write ends within the
  -- largest file, and the file has blocks for the bytes, each of them at one position only, then
  -- `writei` writes all bytes, and `readi` at the same offset then puts them one after the other at
  -- the addresses from `dst` on.
  pub writei-readi :
      (copyout : ℕ → ℕ → Bool) (src dst off n : ℕ) (s : Fs)
      → Sourced copyin source src n
      → CanTake copyout dst n
      → off ≤ (s.itable (ip - 1)).copy.size
      → off + n ≤ maxfile * bsize
      → IsApart ip s
      → HasBlocks ip s off n
      → (s' : Fs) × (writei copyin ip src off n s ≡ ok (some n) s')
        × (readi copyout ip dst off n s' ≡ read_result n (taken source src dst n) s')
  writei-readi copyout src dst off n s works can h u apart all =
      let (s', run, w) = writei_lem src off n s works h u apart all in
      (s', run, read_back source ip copyout src dst off n s s' can u all w)
