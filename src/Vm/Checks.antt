-- ===== src/Vm/Checks.antt =====
-- A table whose two lower tables exist, and a user page at address 0.
use os2025_assignment.Base.{
  ℕ, ◌+◌, ◌*◌, ◌/◌, ◌%◌, ◌<◌, ◌≡◌, ◌≢◌, refl, true, false, some, arith, update, within,
}
use os2025_assignment.Machine.{ok, ◌>>◌}
use os2025_assignment.Str.{Bytes}
use os2025_assignment.Vm.{Memory, walkaddr, mappages}
use os2025_assignment.Vm.Walk.{find, frame, Off, mappages-walkaddr}
use os2025_assignment.Vm.Copy.{copyin, copyout}
use os2025_assignment.Vm.Bytes.{AllMapped, physical, with_bytes}
use os2025_assignment.Vm.Out.{IsApart, copyout-copyin}

-- The tables are at 4096, 8192 and 12288. `leaf` is the entry of page 0.
abbrev tables : ℕ → ℕ → ℕ
tables leaf = update (update (update (λ _. 0) 4096 2049) 8192 3073) 12288 leaf

abbrev memory : ℕ → Memory
memory leaf = record {
  kmem = record { freelist = 0; next = λ _. 0; mem = λ a. a };
  pte = tables leaf;
}

mappages-walkaddr_example :
    (m' : Memory) × (mappages 4096 0 4096 16384 22 (memory 0) ≡ ok true m')
    × (walkaddr 4096 0 m' ≡ ok 16384 m')
    × ((va' : ℕ)
        → Off 12288 2 (tables 0) 4096 va'
        → find 2 (tables 0) 4096 va' ≢ some 12288
        → walkaddr 4096 va' m' ≡ ok (frame (tables 0) 4096 va') m')
unfolding find
mappages-walkaddr_example =
    mappages-walkaddr 4096 0 12288 16384 22 (memory 0) (omega arith) refl refl refl
      (omega arith, (omega arith, tt)) (omega arith) refl refl

-- The page is at 16384.
frame_zero : frame (tables 4119) 4096 0 ≡ 16384
unfolding frame find
frame_zero = refl

physical_at : (j : ℕ) → j < 3 → physical (tables 4119) 4096 (0 + j) ≡ 16384 + j
physical_at j l =
    let e : (0 + j) / 4096 * 4096 ≡ 0 = omega arith in
    let e' : (0 + j) % 4096 ≡ j = omega arith in rw (e, e', frame_zero)

all_mapped : AllMapped (tables 4119) 4096 0 3
all_mapped j l = let e : (0 + j) / 4096 * 4096 ≡ 0 = omega arith in rw (e, frame_zero) (omega arith)

clear :
    (dst : ℕ)
    → dst ≡ 20480
    → (j : ℕ) → j < 3
    → within dst 3 (physical (tables 4119) 4096 (0 + j)) ≡ false
clear dst e j l = rw (physical_at j l) (ground arith)

apart : IsApart 4096 (tables 4119) 0 24576 3
apart = record {
  injective = λ i j a b e. omega (arith, (rw (physical_at i a, physical_at j b) at e));
  source = λ i l. rw (physical_at i l) (ground arith);
}

copyout-copyin_example :
    (b : Bytes) × ((copyout 4096 0 24576 3 >> copyin 4096 20480 0 3) (memory 4119)
      ≡ ok true (with_bytes (memory 4119) b))
    × ((i : ℕ) → i < 3 → b (20480 + i) ≡ 24576 + i)
copyout-copyin_example =
    copyout-copyin 4096 0 24576 20480 3 (memory 4119) all_mapped apart (clear 20480 refl)
