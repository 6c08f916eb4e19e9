-- ===== src/Fs/Bytes.antt =====
-- What `readi` reads: the bytes of a file.
use os2025_assignment.Base.{
  ℕ, zero, suc, ◌+◌, ◌-◌, ◌/◌, ◌%◌, ◌^◌, ◌≤◌, ◌<◌, ◌≡◌, ◌≢◌, refl, ◌∙◌, ap, ap₂, sym, inl, inr,
  Bool, true, false, ◌&&◌, ◌||◌, Option, some, List, [], ◌∷◌, ◌++◌, ltb, ◌/=◌, ==_ne, if◌then◌else◌,
  Bool-cases, arith, slice, min,
}
use native.Mathlib.Decide.{ℕ_discrete}
use os2025_assignment.Machine.{ok, Run}
use os2025_assignment.Fs.{Fs, bsize, ndirect, nindirect}
use os2025_assignment.Fs.Content.{bmap, chunk, copied, readi_loop, readi}
use os2025_assignment.Fs.Alloc.{bmap_there, there_indirect}

-- the block of the file at a position, and 0 if there is none
abbrev pub block_of : ℕ → Fs → ℕ → ℕ
block_of ip s bn =
    let d = (s.itable (ip - 1)).copy in
    if ltb bn ndirect
    then d.addrs bn
    else if ltb (bn - ndirect) nindirect && (d.addrs ndirect /= 0)
    then s.numbers (d.addrs ndirect) (bn - ndirect)
    else 0

-- the byte of the file at an offset
abbrev pub byte_of : ℕ → Fs → ℕ → ℕ
byte_of ip s i = s.bytes (block_of ip s (i / bsize)) (i % bsize)

-- The file has blocks for `n` bytes from `off` on.
abbrev pub HasBlocks : ℕ → Fs → ℕ → ℕ → Type 0
HasBlocks ip s off n = (i : ℕ) → off ≤ i → i < off + n → block_of ip s (i / bsize) ≢ 0

pub bmap_mapped :
    (ip bn : ℕ) (s : Fs) → block_of ip s bn ≢ 0 → bmap ip bn s ≡ ok (block_of ip s bn) s
bmap_mapped ip bn s h = elim (Bool-cases (ltb bn ndirect)) [
  | inl e ↦
      let q : block_of ip s bn ≡ (s.itable (ip - 1)).copy.addrs bn = rw e refl in
      bmap_there ip bn (block_of ip s bn) s e (sym q) h
  | inr e ↦
      elim (Bool-cases
        (ltb (bn - ndirect) nindirect && ((s.itable (ip - 1)).copy.addrs ndirect /= 0))) [
          | inl e' ↦
              let q : block_of ip s bn
                  ≡ s.numbers ((s.itable (ip - 1)).copy.addrs ndirect) (bn - ndirect) =
                rw (e, e') refl in
              there_indirect ip bn ((s.itable (ip - 1)).copy.addrs ndirect) (block_of ip s bn) s e
                (ground arith) refl (ground arith) (sym q) h
          | inr e' ↦ absurd (h (rw (e, e') refl))
        ]
]

module _ {ℓ} {A : Type ℓ} where
  pub slice-add :
      (f : ℕ → A) (a c m n k : ℕ) → c ≡ a + m → k ≡ m + n → slice f a m ++ slice f c n ≡ slice f a k
  slice-add f a c zero n k h h' = ap₂ (λ x y. slice f x y) (omega arith) (omega arith)
  slice-add f a c (suc m) n zero h h' = absurd (omega arith)
  slice-add f a c (suc m) n (suc k) h h' =
      ap (λ xs. f a ∷ xs) (slice-add f (a + 1) c m n k (omega arith) (omega arith))

  pub slice_eq :
      (f g : ℕ → A) (a b n : ℕ)
      → ((i x y : ℕ) → i < n → x ≡ a + i → y ≡ b + i → f x ≡ g y)
      → slice f a n ≡ slice g b n
  slice_eq f g a b zero h = refl
  slice_eq f g a b (suc n) h = ap₂ ◌∷◌ (h 0 a b (omega arith) (omega arith) (omega arith)) (
      slice_eq f g (a + 1) (b + 1) n
        λ i x y l e e'. h (i + 1) x y (omega arith) (omega arith) (omega arith))

-- `n` bytes of the file from `off` on, each with its address from `dst` on
abbrev pub placed : ℕ → Fs → ℕ → ℕ → ℕ → List (ℕ × ℕ)
placed ip s dst off n = slice (λ i. (dst + (i - off), byte_of ip s i)) off n

-- the part of one block
copied_block :
    (ip : ℕ) (s : Fs) (dst off m : ℕ)
    → m ≤ bsize - off % bsize
    → copied (s.bytes (block_of ip s (off / bsize))) dst (off % bsize) m ≡ placed ip s dst off m
copied_block ip s dst off m h = slice_eq _ _ (off % bsize) off m λ i x y l e e'.
    let q : y / bsize ≡ off / bsize = omega arith in
    let r : y % bsize ≡ x = omega arith in
    ap₂ (λ d v. (d, v)) (omega arith) (ap₂ (λ b j. s.bytes (block_of ip s b) j) (sym q) (sym r))

-- one round and then the others
placed_add :
    (ip : ℕ) (s : Fs) (dst off m left : ℕ)
    → m ≤ left
    → placed ip s dst off m ++ placed ip s (dst + m) (off + m) (left - m) ≡ placed ip s dst off left
placed_add ip s dst off m left h =
    ap (λ xs. placed ip s dst off m ++ xs)
      (slice_eq _ _ (off + m) (off + m) (left - m)
        λ i x y l e e'. ap₂ (λ d v. (d, v)) (omega arith) (ap (byte_of ip s) (omega arith)))
    ∙ slice-add (λ i. (dst + (i - off), byte_of ip s i)) off (off + m) m (left - m) left refl
        (omega arith)

-- The destination can take each part of `n` bytes from `dst` on.
abbrev pub CanTake : (ℕ → ℕ → Bool) → ℕ → ℕ → Type 0
CanTake copyout dst n = (d m : ℕ) → dst ≤ d → d + m ≤ dst + n → copyout d m ≡ true

-- what `readi` gives: how many bytes, and which
abbrev pub Read : Type 0
Read = Option ℕ × List (ℕ × ℕ)

abbrev pub read_result : ℕ → List (ℕ × ℕ) → Fs → Run Fs Read
read_result n bytes s = ok (some n, bytes) s

nothing_left :
    (f : ℕ → ℕ × ℕ) (tot off left : ℕ) (s : Fs)
    → left ≡ 0
    → read_result tot [] s ≡ read_result (tot + left) (slice f off left) s
nothing_left f tot off left s e = let q : tot + 0 ≡ tot = omega arith in rw (e, q) refl

module _ (copyout : ℕ → ℕ → Bool) (ip : ℕ) where
  readi_loop_lem :
      (fuel tot dst off left : ℕ) (s : Fs)
      → left ≤ fuel
      → CanTake copyout dst left
      → HasBlocks ip s off left
      → readi_loop copyout ip fuel tot dst off left s
        ≡ read_result (tot + left) (placed ip s dst off left) s
  unfolding readi_loop
  readi_loop_lem zero tot dst off left s h can all = nothing_left _ tot off left s (omega arith)
  readi_loop_lem (suc fuel) tot dst off left s h can all = elim (ℕ_discrete left 0) [
    | yes e ↦ rw e (nothing_left (λ i. (dst + (i - off), byte_of ip s i)) tot off 0 s refl)
    | no ne ↦
        let m = chunk off left in
        let there = all off (omega arith) (omega arith) in
        let rest =
          readi_loop_lem fuel (tot + m) (dst + m) (off + m) (left - m) s (omega arith)
            (λ d k l u. can d k (omega arith) (omega arith))
            (λ i l u. all i (omega arith) (omega arith)) in
        rw
          (
            ==_ne left 0 ne,
            bmap_mapped ip (off / bsize) s there,
            ==_ne _ 0 there,
            can dst m (omega arith) (omega arith),
            rest,
          )
          (ap₂ (λ k xs. read_result k xs s) (omega arith)
            (ap (λ xs. xs ++ placed ip s (dst + m) (off + m) (left - m))
                (copied_block ip s dst off m (omega arith))
              ∙ placed_add ip s dst off m left (omega arith)))
  ]

  -- If the file has blocks for the bytes, and `copyout` works for each part of the addresses from
  -- `dst` on that they go to, `readi` reads from an offset within the file as many bytes as were
  -- asked for and the file has behind the offset, if the bytes that were asked for end below
  -- 2 ^ 32: those of the blocks that the inode names, in their order, one after the other from `dst`
  -- on. It changes nothing.
  pub readi_lem :
      (dst off n : ℕ) (s : Fs)
      → off ≤ (s.itable (ip - 1)).copy.size
      → off + n < 2 ^ 32
      → CanTake copyout dst (min n ((s.itable (ip - 1)).copy.size - off))
      → HasBlocks ip s off (min n ((s.itable (ip - 1)).copy.size - off))
      → readi copyout ip dst off n s
        ≡ read_result
            (min n ((s.itable (ip - 1)).copy.size - off))
            (placed ip s dst off (min n ((s.itable (ip - 1)).copy.size - off)))
            s
  unfolding readi
  readi_lem dst off n s h u can all =
      let size = (s.itable (ip - 1)).copy.size in
      let small : (ltb size off || ltb ((off + n) % 2 ^ 32) off) ≡ false = ground arith in
      let m_eq : (if ltb size (off + n) then size - off else n) ≡ min n (size - off) =
        ground arith in
      rw (small, m_eq)
        (readi_loop_lem n 0 dst off (min n (size - off)) s (omega arith) can all
          ∙ ap (λ k. read_result k (placed ip s dst off (min n (size - off))) s) (omega arith))
