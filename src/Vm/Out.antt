-- ===== src/Vm/Out.antt =====
-- Where `copyout` moves bytes, and what a `copyin` then reads back.
use os2025_assignment.Base.{
  ℕ, zero, suc, ◌+◌, ◌-◌, ◌≤◌, ◌<◌, ◌≡◌, ◌≢◌, refl, ◌∙◌, ap, sym, inl, inr, true, false, ==_ne,
  if◌then◌else◌, Bool-cases, arith, within,
}
use native.Mathlib.Decide.{ℕ_discrete, dec_lt}
use os2025_assignment.Machine.{ok, ◌>>◌}
use os2025_assignment.Str.{Bytes, memmove}
use os2025_assignment.Str.Move.{memmove_lem}
use os2025_assignment.Kalloc.{page_size}
use os2025_assignment.Vm.{Memory, round_down}
use os2025_assignment.Vm.Walk.{frame, walkaddr_lem}
use os2025_assignment.Vm.Copy.{chunk, copyin, copyout_loop, copyout}
use os2025_assignment.Vm.Bytes.{
  with_bytes, physical, AllMapped, chunk_pos, chunk-le, next_page, shrink, is_zero, first_page,
  physical_of, rest_of, copyin_lem,
}

-- a byte of a range that was copied, and a byte outside
at_index :
    (d s n i : ℕ) (b : Bytes)
    → i < n
    → (if within d n (d + i) then b (s + (d + i - d)) else b (d + i)) ≡ b (s + i)
at_index d s n i b l = let e : d + i - d ≡ i = omega arith in rw e (ground arith)

-- a byte at its index in the range
in_place :
    (d n i : ℕ) (f : ℕ → ℕ) (z : ℕ)
    → i < n
    → (if within d n (d + i) then f (d + i - d) else z) ≡ f i
in_place d n i f z l = let e : d + i - d ≡ i = omega arith in rw e (ground arith)

hit : (s len x : ℕ) → within s len x ≡ false → s ≤ x → x < s + len → ⊥
hit s len x h a c = ground arith

index :
    (va i len : ℕ)
    → ¬ i < chunk va len
    → i < len
    → va + i ≡ round_down va + page_size + (i - chunk va len)
index va i len h l = omega (arith, next_page va len (omega arith))

not_at : (d n a : ℕ) → ((i : ℕ) → i < n → d + i ≢ a) → within d n a ≡ false
not_at d n a h = elim (Bool-cases (within d n a)) [
  | inr out ↦ out
  | inl inside ↦ absurd (h (a - d) (ground arith) (ground arith))
]

module _ (table : ℕ) where
  -- what `copyout` has to leave: the bytes at their places, and all else as it was
  pub record Copied (pte : ℕ → ℕ) (va src len : ℕ) (b b' : Bytes) : Type 0 where
    pub there : (i : ℕ) → i < len → b' (physical pte table (va + i)) ≡ b (src + i)
    pub rest : (a : ℕ) → ((i : ℕ) → i < len → physical pte table (va + i) ≢ a) → b' a ≡ b a

  -- Two bytes of the range never lie at one place, and none lies in the source.
  pub record IsApart (pte : ℕ → ℕ) (va src len : ℕ) : Type 0 where
    pub injective :
        (i j : ℕ)
        → i < len
        → j < len
        → physical pte table (va + i) ≡ physical pte table (va + j)
        → i ≡ j
    pub source : (i : ℕ) → i < len → within src len (physical pte table (va + i)) ≡ false

  module _ (pte : ℕ → ℕ) (va src len : ℕ) (b : Bytes) where
    -- the bytes after a round of `copyout`
    abbrev round_out : Bytes
    round_out =
        memmove (frame pte table (round_down va) + (va - round_down va)) src (chunk va len) b

    out_there : (i : ℕ) → i < chunk va len → round_out (physical pte table (va + i)) ≡ b (src + i)
    out_there i l = rw (physical_of table pte va i len l) (
        memmove_lem (frame pte table (round_down va) + (va - round_down va)) src (chunk va len) b _
        ∙ at_index (frame pte table (round_down va) + (va - round_down va)) src (chunk va len) i b
            l)

    out_rest :
        (a : ℕ) → ((i : ℕ) → i < chunk va len → physical pte table (va + i) ≢ a) → round_out a ≡ b a
    out_rest a h =
        memmove_lem (frame pte table (round_down va) + (va - round_down va)) src (chunk va len) b a
        ∙ rw (
            not_at (frame pte table (round_down va) + (va - round_down va)) (chunk va len) a
              (λ i l e. h i l (physical_of table pte va i len l ∙ e)))

    -- the places of the bytes that are left
    place :
        (j : ℕ)
        → j < len - chunk va len
        → physical pte table (round_down va + page_size + j)
          ≡ physical pte table (va + (chunk va len + j))
    place j l = ap (physical pte table) (omega (arith, next_page va len (omega arith)))

    rest-IsApart :
        IsApart pte va src len
        → IsApart pte (round_down va + page_size) (src + chunk va len) (len - chunk va len)
    rest-IsApart c = record {
      injective = λ i j li lj e. omega (
        arith,
        c.injective (chunk va len + i) (chunk va len + j) (omega arith) (omega arith)
            (sym (place i li) ∙ e ∙ place j lj),
      );
      source = λ i l.
          rw (place i l)
            (shrink src (chunk va len) len _ (c.source (chunk va len + i) (omega arith)));
    }

    join-Copied :
        (b' : Bytes)
        → IsApart pte va src len
        → Copied pte
            (round_down va + page_size)
            (src + chunk va len)
            (len - chunk va len)
            round_out
            b'
        → Copied pte va src len b b'
    join-Copied b' c d = record {
      there = λ i l. elim (dec_lt i (chunk va len)) [
        | yes first ↦
            d.rest (physical pte table (va + i)) (λ j lj e. absurd (
              omega
                (arith, c.injective (chunk va len + j) i (omega arith) l (sym (place j lj) ∙ e))))
            ∙ out_there i first
        | no more ↦
            let j = i - chunk va len in
            ap (λ k. b' (physical pte table k)) (index va i len more l)
            ∙ d.there j (omega arith)
            ∙ out_rest (src + chunk va len + j) (λ q lq e.
              hit src len _ (c.source q (omega (arith, chunk-le va len))) (omega (arith, e))
                (omega (arith, e)))
            ∙ ap b (omega arith)
      ];
      rest = λ a h.
          d.rest a (λ j lj e. h (chunk va len + j) (omega arith) (sym (place j lj) ∙ e))
          ∙ out_rest a (λ i li e. h i (omega (arith, chunk-le va len)) e);
    }

  copyout_loop_lem :
      (fuel dstva src len : ℕ) (m : Memory)
      → len ≤ fuel
      → AllMapped m.pte table dstva len
      → IsApart m.pte dstva src len
      → (b : Bytes) × (copyout_loop fuel table dstva src len m ≡ ok true (with_bytes m b))
        × Copied m.pte dstva src len m.kmem.mem b
  unfolding copyout_loop
  copyout_loop_lem zero dstva src len m f all apart =
      (m.kmem.mem, refl, record { there = λ i l. absurd (omega arith); rest = λ a h. refl })
  copyout_loop_lem (suc fuel) dstva src len m f all apart = elim (ℕ_discrete len 0) [
    | yes z ↦ (
      m.kmem.mem,
      rw (is_zero len z) refl,
      record { there = λ i l. absurd (omega arith); rest = λ a h. refl },
    )
    | no more ↦
        let pa = frame m.pte table (round_down dstva) in
        let later =
          copyout_loop_lem fuel (round_down dstva + page_size) (src + chunk dstva len)
            (len - chunk dstva len) (with_bytes m (round_out m.pte dstva src len m.kmem.mem))
            (omega (arith, chunk_pos dstva len more))
            (rest_of table (λ va. frame m.pte table (round_down va) ≢ 0) dstva len all)
            (rest-IsApart m.pte dstva src len m.kmem.mem apart) in
        (
          later.0,
          rw
              (
                ==_ne len 0 more,
                walkaddr_lem table (round_down dstva) m,
                ==_ne pa 0 (first_page m.pte table dstva len more all),
              )
              (later.1),
          join-Copied m.pte dstva src len m.kmem.mem (later.0) apart (later.2),
        )
  ]

-- When all pages are mapped and the user's bytes lie apart from one another and from the source,
-- `copyout` succeeds, puts the bytes in order to where the user's addresses lie in memory, and
-- writes nothing else.
pub copyout_lem :
    (table dstva src len : ℕ) (m : Memory)
    → AllMapped m.pte table dstva len
    → IsApart table m.pte dstva src len
    → (b : Bytes) × (copyout table dstva src len m ≡ ok true (with_bytes m b))
      × Copied table m.pte dstva src len m.kmem.mem b
unfolding copyout
copyout_lem table dstva src len m all apart =
    copyout_loop_lem table len dstva src len m (omega arith) all apart

-- If all user pages of the range are mapped, no two bytes of it lie at one place, and none of it
-- lies in the source or in the place `dst`, then what `copyout` has put at the user address, `copyin`
-- from there brings to `dst`: both succeed, and `dst` holds the bytes that the source held.
pub copyout-copyin :
    (table va src dst len : ℕ) (m : Memory)
    → AllMapped m.pte table va len
    → IsApart table m.pte va src len
    → ((j : ℕ) → j < len → within dst len (physical m.pte table (va + j)) ≡ false)
    → (b : Bytes) × ((copyout table va src len >> copyin table dst va len) m
        ≡ ok true (with_bytes m b))
      × ((i : ℕ) → i < len → b (dst + i) ≡ m.kmem.mem (src + i))
copyout-copyin table va src dst len m all apart clear =
    let out = copyout_lem table va src len m all apart in
    let back = copyin_lem table dst va len (with_bytes m (out.0)) all clear in
    (
      back.0,
      rw (out.1) (back.1),
      λ i l.
          back.2 (dst + i)
          ∙ in_place dst len i (λ k. out.0 (physical m.pte table (va + k))) (out.0 (dst + i)) l
          ∙ out.2.there i l,
    )
