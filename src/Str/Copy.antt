-- ===== src/Str/Copy.antt =====
-- What `strncpy`, `safestrcpy` and `strlen` do with a string: the bytes before the first zero.
use os2025_assignment.Base.{
  ℕ, zero, suc, ◌+◌, ◌-◌, ◌≤◌, ◌<◌, ◌≡◌, refl, ◌≢◌, ◌⊎◌, inl, inr, ◌&&◌, ◌||◌, ap, none, some,
  arith, ltb, within, ◌==◌, ◌/=◌, if◌then◌else◌, Bool-cases, update,
}
use native.Mathlib.Decide.{ℕ_discrete}
use os2025_assignment.Str.{
  Bytes, fill_zero, strncpy_loop, strncpy, safestrcpy_loop, safestrcpy, strlen_loop, strlen,
}

-- how many of the next `n` bytes stand before the first zero
unfoldable pub run_length : ℕ → ℕ → Bytes → ℕ
run_length zero i t = 0
run_length (suc n) i t = if t i /= 0 then suc (run_length n (i + 1) t) else 0

pub run_length-le : (n i : ℕ) (t : Bytes) → run_length n i t ≤ n
unfolding run_length
run_length-le zero i t = omega arith
run_length-le (suc n) i t = ground (arith, run_length-le n (i + 1) t)

-- every byte of the run is a byte of the string
pub run_length-ne_zero : (n i : ℕ) (t : Bytes) (j : ℕ) → i ≤ j → j < i + run_length n i t → t j ≢ 0
unfolding run_length
run_length-ne_zero zero i t j h k = absurd (omega arith)
run_length-ne_zero (suc n) i t j h k = elim (ℕ_discrete j i) [
  | yes e ↦ rw e (ground arith)
  | no ne ↦ ground (arith, run_length-ne_zero n (i + 1) t j)
]

shift : (i k : ℕ) → i + suc k ≡ i + 1 + k
shift i k = omega arith

none_left : (i : ℕ) → i + 0 ≡ i
none_left i = omega arith

-- the run ends at a zero byte, unless all `n` bytes belong to it
pub run_length-stops :
    (n i : ℕ) (t : Bytes) → (run_length n i t ≡ n) ⊎ (t (i + run_length n i t) ≡ 0)
unfolding run_length
run_length-stops zero i t = inl refl
run_length-stops (suc n) i t = ground (
  arith,
  run_length-stops n (i + 1) t,
  ap t (shift i (run_length n (i + 1) t)),
  ap t (none_left i),
)

fill_zero_lem :
    (n i : ℕ) (s : Bytes) (j : ℕ) → fill_zero n i s j ≡ (if within i n j then 0 else s j)
unfolding fill_zero
fill_zero_lem zero i s j = ground arith
fill_zero_lem (suc n) i s j = ground (arith, fill_zero_lem n (i + 1) (update s i 0) j)

strncpy_loop_lem :
    (n i : ℕ) (s t : Bytes) (j : ℕ)
    → strncpy_loop n i s t j
      ≡ (if within i n j then (if ltb j (i + run_length n i t) then t j else 0) else s j)
unfolding strncpy_loop run_length
strncpy_loop_lem zero i s t j = ground arith
strncpy_loop_lem (suc n) i s t j = ground (
  arith,
  strncpy_loop_lem n (i + 1) (update s i (t i)) t j,
  fill_zero_lem n (i + 1) (update s i (t i)) j,
)

-- `strncpy` writes exactly the `n` bytes of the destination: the string, cut off after `n` bytes,
-- and zeros behind it.
pub strncpy_lem :
    (s t : Bytes) (n j : ℕ)
    → strncpy s t n j ≡ (if ltb j n then (if ltb j (run_length n 0 t) then t j else 0) else s j)
unfolding strncpy
strncpy_lem s t n j = ground (arith, strncpy_loop_lem n 0 s t j)

abbrev pub copied : ℕ → ℕ → ℕ → Bytes → Bytes → ℕ → ℕ
copied len n i s t j =
    if ltb j i
    then s j
    else if ltb j (i + len)
    then t j
    else if (j == i + len) || ((j == i + len + 1) && ltb len n)
    then 0
    else s j

safestrcpy_loop_lem :
    (n i : ℕ) (s t : Bytes) (j : ℕ)
    → safestrcpy_loop n i s t j ≡ copied (run_length n i t) n i s t j
unfolding safestrcpy_loop run_length
safestrcpy_loop_lem zero i s t j = ground arith
safestrcpy_loop_lem (suc n) i s t j = elim (Bool-cases (t i /= 0)) [
  | inl more ↦ rw more (ground (arith, safestrcpy_loop_lem n (i + 1) (update s i (t i)) t j))
  | inr ended ↦ rw ended (ground arith)
]

-- `safestrcpy` with room for `n ≢ 0` bytes leaves the string, cut off after `n - 1` bytes, and a
-- zero behind it. It writes one more byte only if the string was not cut off: a second zero, which
-- then still lies among the `n` bytes. All other bytes stay as they were.
pub safestrcpy_lem :
    (s t : Bytes) (n j : ℕ)
    → n ≢ 0
    → safestrcpy s t n j ≡ (
        let len = run_length (n - 1) 0 t in
        if ltb j len
        then t j
        else if (j == len) || ((j == len + 1) && ltb len (n - 1))
        then 0
        else s j)
unfolding safestrcpy
safestrcpy_lem s t n j h = ground (arith, safestrcpy_loop_lem (n - 1) 0 s t j)

strlen_loop_lem :
    (fuel i : ℕ) (s : Bytes)
    → strlen_loop fuel i s
      ≡ (if run_length fuel i s /= fuel then some (i + run_length fuel i s) else none)
unfolding strlen_loop run_length
strlen_loop_lem zero i s = refl
strlen_loop_lem (suc fuel) i s = ground (arith, strlen_loop_lem fuel (i + 1) s)

-- `strlen` returns the number of bytes before the first zero, if that zero is within reach.
pub strlen_lem :
    (fuel : ℕ) (s : Bytes)
    → strlen fuel s ≡ (if run_length fuel 0 s /= fuel then some (run_length fuel 0 s) else none)
unfolding strlen
strlen_lem fuel s = ground (arith, strlen_loop_lem fuel 0 s)
