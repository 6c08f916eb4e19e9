-- ===== src/Str/Move.antt =====
-- What `memset` and `memmove` leave in memory.
use os2025_assignment.Base.{
  ℕ, zero, suc, ◌+◌, ◌-◌, ◌%◌, ◌^◌, ◌≤◌, ◌<◌, ◌≡◌, ◌⊎◌, arith, within, if◌then◌else◌, update,
}
use os2025_assignment.Str.{Bytes, memset_loop, memset, copy_up, copy_down, memmove}

memset_loop_lem :
    (n dst c : ℕ) (m : Bytes) (a : ℕ)
    → memset_loop n dst c m a ≡ (if within dst n a then c % 2 ^ 8 else m a)
unfolding memset_loop
memset_loop_lem zero dst c m a = ground arith
memset_loop_lem (suc n) dst c m a =
    ground (arith, memset_loop_lem n (dst + 1) c (update m dst (c % 2 ^ 8)) a)

-- `memset` writes the low byte of `c` to the `n` addresses from `dst` on, and nowhere else.
pub memset_lem :
    (dst c n : ℕ) (m : Bytes) (a : ℕ)
    → memset dst c n m a ≡ (if within dst n a then c % 2 ^ 8 else m a)
unfolding memset
memset_lem dst c n m a = memset_loop_lem n dst c m a

step_index : (s d a : ℕ) → d < a → s + 1 + (a - (d + 1)) ≡ s + (a - d)
step_index s d a h = omega arith

last_index : (s d n a : ℕ) → a ≡ d + n → s + (a - d) ≡ s + n
last_index s d n a h = omega arith

pub copy_up_lem :
    (n d s : ℕ) (m : Bytes) (a : ℕ)
    → (d ≤ s) ⊎ (s + n ≤ d)
    → copy_up n d s m a ≡ (if within d n a then m (s + (a - d)) else m a)
unfolding copy_up
copy_up_lem zero d s m a h = ground arith
copy_up_lem (suc n) d s m a h = ground (
  arith,
  copy_up_lem n (d + 1) (s + 1) (update m d (m s)) a (omega arith),
  λ (q : d < a). step_index s d a q,
)

pub copy_down_lem :
    (n d s : ℕ) (m : Bytes) (a : ℕ)
    → s ≤ d
    → copy_down n (d + n) (s + n) m a ≡ (if within d n a then m (s + (a - d)) else m a)
unfolding copy_down
copy_down_lem zero d s m a h = ground arith
copy_down_lem (suc n) d s m a h =
    let e : d + suc n - 1 ≡ d + n = omega arith in
    let f : s + suc n - 1 ≡ s + n = omega arith in
    rw (e, f)
      (ground (
        arith,
        copy_down_lem n d s (update m (d + n) (m (s + n))) a h,
        λ (q : a ≡ d + n). last_index s d n a q,
      ))

-- `memmove` copies the `n` bytes from `src` on to `dst` as they stood before the call, also where
-- the two ranges overlap, and writes nowhere else.
pub memmove_lem :
    (dst src n : ℕ) (m : Bytes) (a : ℕ)
    → memmove dst src n m a ≡ (if within dst n a then m (src + (a - dst)) else m a)
unfolding memmove
memmove_lem dst src n m a = ground (arith, copy_up_lem n dst src m a, copy_down_lem n dst src m a)
