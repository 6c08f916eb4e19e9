-- ===== src/Fs/Written.antt =====
-- What `writei` writes, and that `readi` reads it.
use os2025_assignment.Base.{
  ℕ, zero, suc, ◌+◌, ◌-◌, ◌*◌, ◌/◌, ◌%◌, ◌≤◌, ◌<◌, ◌≡◌, ◌≢◌, refl, ◌∙◌, ap, ap₂, sym, inl, inr,
  false, Option, some, ==_ne, if◌then◌else◌, Bool-cases, arith, update, update_self, update_ne,
  within,
}
use native.Mathlib.Decide.{ℕ_discrete, dec_lt}
use os2025_assignment.Machine.{ok, Run}
use os2025_assignment.Fs.{Fs, bsize}
use os2025_assignment.Fs.Content.{chunk, writei_loop}
use os2025_assignment.Fs.Bytes.{block_of, byte_of, HasBlocks, bmap_mapped}

-- No block stands at two positions of the file.
abbrev pub IsApart : ℕ → Fs → Type 0
IsApart ip s = (a b : ℕ) → block_of ip s a ≢ 0 → block_of ip s a ≡ block_of ip s b → a ≡ b

-- the bytes of the blocks after a round
abbrev round : (ℕ → ℕ) → ℕ → ℕ → ℕ → ℕ → Fs → ℕ → ℕ → ℕ
round source addr src off m s =
    update s.bytes addr
      λ b. if within (off % bsize) m b then source (src + (b - off % bsize)) else s.bytes addr b

-- A byte of the file after `n` bytes of `source` from `src` on were written from `off` on.
abbrev pub written : (ℕ → ℕ) → ℕ → ℕ → ℕ → (ℕ → ℕ) → ℕ → ℕ
written source src off n old i = if within off n i then source (src + (i - off)) else old i

in_block :
    (off m i : ℕ)
    → i / bsize ≡ off / bsize
    → m ≤ bsize - off % bsize
    → within (off % bsize) m (i % bsize) ≡ within off m i
in_block off m i e h =
    let i_eq : i ≡ i / bsize * bsize + i % bsize = omega arith in
    let off_eq : off ≡ i / bsize * bsize + off % bsize = omega arith in ground (arith, i_eq, off_eq)

-- in the block that the round writes
same_block :
    (source : ℕ → ℕ) (a src off m i : ℕ) (bytes : ℕ → ℕ → ℕ)
    → i / bsize ≡ off / bsize
    → m ≤ bsize - off % bsize
    → update bytes a
        (λ b. if within (off % bsize) m b then source (src + (b - off % bsize)) else bytes a b)
        a
        (i % bsize)
      ≡ (if within off m i then source (src + (i - off)) else bytes a (i % bsize))
same_block source a src off m i bytes e h =
    let q = in_block off m i e h in
    ap (λ f. f (i % bsize)) (update_self bytes a _) ∙ elim (Bool-cases (within off m i)) [
      | inl u ↦ let r : i % bsize - off % bsize ≡ i - off = omega arith in rw (q, u, r) refl
      | inr u ↦ rw (q, u) refl
    ]

out_of_block :
    (off m i : ℕ) → (i / bsize) ≢ (off / bsize) → m ≤ bsize - off % bsize → within off m i ≡ false
out_of_block off m i ne h = elim (Bool-cases (within off m i)) [
  | inr u ↦ u
  | inl u ↦
      let l : off ≤ i = ground arith in
      let g : i < off + m = ground arith in absurd (ne (omega arith))
]

round_lem :
    (source : ℕ → ℕ) (ip src off m : ℕ) (s : Fs) (i : ℕ)
    → IsApart ip s
    → m ≤ bsize - off % bsize
    → block_of ip s (i / bsize) ≢ 0
    → round source (block_of ip s (off / bsize)) src off m s (block_of ip s (i / bsize)) (i % bsize)
      ≡ written source src off m (byte_of ip s) i
round_lem source ip src off m s i apart h there = elim (ℕ_discrete (i / bsize) (off / bsize)) [
  | yes e ↦
      ap (λ b. round source (block_of ip s (off / bsize)) src off m s (block_of ip s b) (i % bsize))
        e
      ∙ same_block source (block_of ip s (off / bsize)) src off m i s.bytes e h
      ∙ ap
          (λ b.
            if within off m i
            then source (src + (i - off))
            else s.bytes (block_of ip s b) (i % bsize))
          (sym e)
  | no ne ↦
      let q : within off m i ≡ false = out_of_block off m i ne h in
      ap (λ f. f (i % bsize))
        (update_ne s.bytes (block_of ip s (off / bsize)) _ (block_of ip s (i / bsize))
          (λ c. ne (apart _ _ there c)))
      ∙ rw q refl
]

-- the bytes of a round, and then those of the others
pub written_add :
    (source : ℕ → ℕ) (src off m left i : ℕ) (old : ℕ → ℕ)
    → m ≤ left
    → written source (src + m) (off + m) (left - m) (written source src off m old) i
      ≡ written source src off left old i
written_add source src off m left i old h = elim (dec_lt i (off + m)) [
  | yes l ↦ ground arith
  | no g ↦
      let q : source (src + m + (i - (off + m))) ≡ source (src + (i - off)) =
        ap source (omega arith) in
      ground (arith, q)
]

pub written_none :
    (source : ℕ → ℕ) (src off left i : ℕ) (old : ℕ → ℕ)
    → left ≡ 0
    → old i ≡ written source src off left old i
written_none source src off left i old e = ground arith

-- how `writei_loop` ends
abbrev pub ended : ℕ → ℕ → Fs → Run Fs (ℕ × ℕ)
ended tot off s = ok (tot, off) s

ended_none :
    (tot off left : ℕ) (s : Fs) → left ≡ 0 → ended tot off s ≡ ended (tot + left) (off + left) s
ended_none tot off left s e = ap₂ (λ x y. ended x y s) (omega arith) (omega arith)

-- the blocks after the write
abbrev pub BytesAfter : (ℕ → ℕ) → ℕ → ℕ → ℕ → ℕ → Fs → (ℕ → ℕ → ℕ) → Type 0
BytesAfter source ip src off n s bytes =
    (i : ℕ)
    → block_of ip s (i / bsize) ≢ 0
    → bytes (block_of ip s (i / bsize)) (i % bsize) ≡ written source src off n (byte_of ip s) i

-- The `n` bytes from `src` on can be read, whole or in part, and are those of `source`.
abbrev pub Sourced : (ℕ → ℕ → Option (ℕ → ℕ)) → (ℕ → ℕ) → ℕ → ℕ → Type 0
Sourced copyin source src n =
    (a m : ℕ) → src ≤ a → a + m ≤ src + n → copyin a m ≡ some (λ j. source (a + j))

module _ (copyin : ℕ → ℕ → Option (ℕ → ℕ)) (source : ℕ → ℕ) (ip : ℕ) where
  pub writei_loop_lem :
      (fuel tot src off left : ℕ) (s : Fs)
      → left ≤ fuel
      → Sourced copyin source src left
      → IsApart ip s
      → HasBlocks ip s off left
      → (bytes : ℕ → ℕ → ℕ) × (writei_loop copyin ip fuel tot src off left s
          ≡ ok (tot + left, off + left) (record s { bytes = bytes }))
        × BytesAfter source ip src off left s bytes
  unfolding writei_loop
  writei_loop_lem zero tot src off left s h works apart all = (
    s.bytes,
    ended_none tot off left s (omega arith),
    λ i there. written_none source src off left i (byte_of ip s) (omega arith),
  )
  writei_loop_lem (suc fuel) tot src off left s h works apart all = elim (ℕ_discrete left 0) [
    | yes e ↦ (
      s.bytes,
      rw e (ended_none tot off 0 s refl),
      λ i there. written_none source src off left i (byte_of ip s) e,
    )
    | no ne ↦
        let m = chunk off left in
        let there = all off (omega arith) (omega arith) in
        let s1 = record s { bytes = round source (block_of ip s (off / bsize)) src off m s } in
        let (bytes, run, after) =
          writei_loop_lem fuel (tot + m) (src + m) (off + m) (left - m) s1 (omega arith)
            (λ a k l u. works a k (omega arith) (omega arith)) apart
            (λ i l u. all i (omega arith) (omega arith)) in
        (
          bytes,
          rw
              (
                ==_ne left 0 ne,
                bmap_mapped ip (off / bsize) s there,
                ==_ne _ 0 there,
                works src m (omega arith) (omega arith),
                run,
              )
              (ap₂ (λ x y. ended x y (record s { bytes = bytes })) (omega arith) (omega arith)),
          λ i at_.
              after i at_
              ∙ ap
                  (λ v.
                    if within (off + m) (left - m) i then source (src + m + (i - (off + m))) else v)
                  (round_lem source ip src off m s i apart (omega arith) at_)
              ∙ written_add source src off m left i (byte_of ip s) (omega arith),
        )
  ]
