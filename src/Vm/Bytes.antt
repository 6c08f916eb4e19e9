-- ===== src/Vm/Bytes.antt =====
-- Where `copyin` and `copyout` move bytes.
use os2025_assignment.Base.{
  ℕ, zero, suc, ◌+◌, ◌-◌, ◌%◌, ◌≤◌, ◌<◌, ◌≡◌, ◌≢◌, refl, ◌∙◌, ap, sym, inl, inr, true, false, ◌==◌,
  ==_ne, if◌then◌else◌, Bool-cases, arith, within,
}
use native.Mathlib.Decide.{ℕ_discrete}
use os2025_assignment.Machine.{ok}
use os2025_assignment.Str.{Bytes, memmove}
use os2025_assignment.Str.Move.{memmove_lem}
use os2025_assignment.Kalloc.{page_size}
use os2025_assignment.Vm.{Memory, round_down}
use os2025_assignment.Vm.Walk.{frame, walkaddr_lem}
use os2025_assignment.Vm.Copy.{chunk, copyin_loop, copyin}

abbrev pub with_bytes : Memory → Bytes → Memory
with_bytes m b = record m { kmem = record m.kmem { mem = b } }

module _ (pte : ℕ → ℕ) (table : ℕ) where
  -- the physical address of a user address
  abbrev pub physical : ℕ → ℕ
  physical va = frame pte table (round_down va) + va % page_size

  -- the `len` bytes from `va` on lie in mapped pages
  abbrev pub AllMapped : ℕ → ℕ → Type 0
  AllMapped va len = (j : ℕ) → j < len → frame pte table (round_down (va + j)) ≢ 0

-- the bytes of one round lie in one page
page_of : (va j len : ℕ) → j < chunk va len → round_down (va + j) ≡ round_down va
page_of va j len h = omega arith

offset_of : (va j len : ℕ) → j < chunk va len → (va + j) % page_size ≡ va - round_down va + j
offset_of va j len h = omega arith

-- the rest starts at the next page, if there is a rest
pub next_page : (va len : ℕ) → chunk va len < len → round_down va + page_size ≡ va + chunk va len
next_page va len h = omega arith

pub chunk_pos : (va len : ℕ) → len ≢ 0 → 1 ≤ chunk va len
chunk_pos va len h = omega arith

pub chunk-le : (va len : ℕ) → chunk va len ≤ len
chunk-le va len = omega arith

pub is_zero : (n : ℕ) → n ≡ 0 → (n == 0) ≡ true
is_zero n h = ground arith

nothing : (dst len a : ℕ) → len ≤ 0 → within dst len a ≡ false
nothing dst len a h = ground arith

-- a range without its first `n` numbers, and these alone
pub shrink : (d n len x : ℕ) → within d len x ≡ false → within (d + n) (len - n) x ≡ false
shrink d n len x h = ground arith

narrow : (d n len x : ℕ) → n ≤ len → within d len x ≡ false → within d n x ≡ false
narrow d n len x h k = ground arith

-- what a first round and the others write
join :
    {A : Type 0} (d n len a : ℕ) (u v x z : A)
    → n ≤ len
    → v ≡ (if within d n a then x else z)
    → (within (d + n) (len - n) a ≡ true → u ≡ x)
    → (if within (d + n) (len - n) a then u else v) ≡ (if within d len a then x else z)
join d n len a u v x z h e k = ground arith

past :
    (va d len a : ℕ)
    → within (d + chunk va len) (len - chunk va len) a ≡ true
    → round_down va + page_size + (a - (d + chunk va len)) ≡ va + (a - d)
past va d len a w = ground (arith, next_page va len)

pub first_page :
    (pte : ℕ → ℕ) (table va len : ℕ)
    → len ≢ 0
    → AllMapped pte table va len
    → frame pte table (round_down va) ≢ 0
first_page pte table va len more all =
    let e : va + 0 ≡ va = omega arith in rw e at (all 0 (omega arith))

module _ (table : ℕ) where
  pub physical_of :
      (pte : ℕ → ℕ) (va j len : ℕ)
      → j < chunk va len
      → physical pte table (va + j) ≡ frame pte table (round_down va) + (va - round_down va) + j
  physical_of pte va j len h = rw (page_of va j len h, offset_of va j len h) (omega arith)

  -- the condition on the bytes that are left after a round
  pub rest_of :
      (P : ℕ → Type 0) (va len : ℕ)
      → ((j : ℕ) → j < len → P (va + j))
      → (j : ℕ) → j < len - chunk va len
      → P (round_down va + page_size + j)
  rest_of P va len h j l =
      let e : round_down va + page_size + j ≡ va + (chunk va len + j) =
        omega (arith, next_page va len (omega arith)) in
      rw e (h (chunk va len + j) (omega arith))

  -- the bytes after a round of `copyin`
  in_round :
      (pte : ℕ → ℕ) (dst va len : ℕ) (b : Bytes) (a : ℕ)
      → memmove dst (frame pte table (round_down va) + (va - round_down va)) (chunk va len) b a
        ≡ (if within dst (chunk va len) a then b (physical pte table (va + (a - dst))) else b a)
  in_round pte dst va len b a = elim (Bool-cases (within dst (chunk va len) a)) [
    | inr out ↦ memmove_lem dst _ (chunk va len) b a ∙ rw out
    | inl inside ↦
        memmove_lem dst _ (chunk va len) b a
        ∙ rw inside (ap b (sym (physical_of pte va (a - dst) len (ground arith))))
  ]

  copyin_loop_lem :
      (fuel dst srcva len : ℕ) (m : Memory)
      → len ≤ fuel
      → AllMapped m.pte table srcva len
      → ((j : ℕ) → j < len → within dst len (physical m.pte table (srcva + j)) ≡ false)
      → (b : Bytes) × (copyin_loop fuel table dst srcva len m ≡ ok true (with_bytes m b))
        × ((a : ℕ)
            → b a ≡ (
                if within dst len a
                then m.kmem.mem (physical m.pte table (srcva + (a - dst)))
                else m.kmem.mem a))
  unfolding copyin_loop
  copyin_loop_lem zero dst srcva len m f all apart =
      (m.kmem.mem, refl, λ a. rw (nothing dst len a (omega arith)))
  copyin_loop_lem (suc fuel) dst srcva len m f all apart = elim (ℕ_discrete len 0) [
    | yes z ↦ (m.kmem.mem, rw (is_zero len z) refl, λ a. rw (nothing dst len a (omega arith)))
    | no more ↦
        let n = chunk srcva len in
        let pa = frame m.pte table (round_down srcva) in
        let b1 = memmove dst (pa + (srcva - round_down srcva)) n m.kmem.mem in
        let rest =
          copyin_loop_lem fuel (dst + n) (round_down srcva + page_size) (len - n) (with_bytes m b1)
            (omega (arith, chunk_pos srcva len more))
            (rest_of (λ va. frame m.pte table (round_down va) ≢ 0) srcva len all)
            (λ j l. shrink dst n len (physical m.pte table (round_down srcva + page_size + j)) (
              rest_of (λ va. within dst len (physical m.pte table va) ≡ false) srcva len apart j
                l)) in
        (
          rest.0,
          rw
              (
                ==_ne len 0 more,
                walkaddr_lem table (round_down srcva) m,
                ==_ne pa 0 (first_page m.pte table srcva len more all),
              )
              (rest.1),
          λ a.
              rest.2 a
              ∙ join dst n len a _ (b1 a) _ _ (chunk-le srcva len)
                  (in_round m.pte dst srcva len m.kmem.mem a)
                  (λ w. later m.pte dst srcva len m.kmem.mem a apart w),
        )
  ]
    where
      later :
          (pte : ℕ → ℕ) (dst va len : ℕ) (b : Bytes) (a : ℕ)
          → ((j : ℕ) → j < len → within dst len (physical pte table (va + j)) ≡ false)
          → within (dst + chunk va len) (len - chunk va len) a ≡ true
          → memmove dst
              (frame pte table (round_down va) + (va - round_down va))
              (chunk va len)
              b
              (physical pte table (round_down va + page_size + (a - (dst + chunk va len))))
            ≡ b (physical pte table (va + (a - dst)))
      later pte dst va len b a apart w =
          let e : round_down va + page_size + (a - (dst + chunk va len)) ≡ va + (a - dst) =
            past va dst len a w in
          rw e (
            in_round pte dst va len b (physical pte table (va + (a - dst)))
            ∙ rw (
                narrow dst (chunk va len) len (physical pte table (va + (a - dst)))
                  (chunk-le va len) (apart (a - dst) (ground arith))))

-- When all pages are mapped and none of the user's bytes lies in the destination, `copyin`
-- succeeds, copies the user's bytes in order, wherever their pages lie in memory, and writes
-- nothing else.
pub copyin_lem :
    (table dst srcva len : ℕ) (m : Memory)
    → AllMapped m.pte table srcva len
    → ((j : ℕ) → j < len → within dst len (physical m.pte table (srcva + j)) ≡ false)
    → (b : Bytes) × (copyin table dst srcva len m ≡ ok true (with_bytes m b))
      × ((a : ℕ)
          → b a ≡ (
              if within dst len a
              then m.kmem.mem (physical m.pte table (srcva + (a - dst)))
              else m.kmem.mem a))
unfolding copyin
copyin_lem table dst srcva len m all apart =
    copyin_loop_lem table len dst srcva len m (omega arith) all apart
