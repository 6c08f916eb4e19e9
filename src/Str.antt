-- ===== src/Str.antt =====
-- kernel/string.c. `memset`, `memmove` and `memcpy` work on one memory, a function from addresses
-- to bytes; they are given ranges that do not run past the end of the address space. The string
-- functions read and write arrays, functions from an index to a byte: `s` there stands for the
-- bytes from the pointer on, and source and destination do not overlap.
-- A byte is a number below 256 (an `unsigned char`).
pub mod Move
pub mod Copy
pub mod Compare
mod Checks
use os2025_assignment.Base.{
  ℕ, zero, suc, ◌+◌, ◌-◌, ◌%◌, ◌^◌, Bool, true, false, ◌&&◌, Option, none, some, ltb, ◌==◌, ◌/=◌,
  if◌then◌else◌, update,
}

abbrev pub Bytes : Type 0
Bytes = ℕ → ℕ

-- `*dst++ = c`, n times
memset_loop : ℕ → ℕ → ℕ → Bytes → Bytes
memset_loop zero dst c m = m
memset_loop (suc n) dst c m = memset_loop n (dst + 1) c (update m dst (c % 2 ^ 8))

-- The conversion of `c` to `char` keeps its low byte.
unfoldable pub memset : ℕ → ℕ → ℕ → Bytes → Bytes
unfolding memset_loop
memset dst c n m = memset_loop n dst c m

-- the loop that copies upwards
unfoldable pub copy_up : ℕ → ℕ → ℕ → Bytes → Bytes
copy_up zero d s m = m
copy_up (suc n) d s m = copy_up n (d + 1) (s + 1) (update m d (m s))

-- the loop that copies downwards; `d` and `s` point just past the bytes that are left
unfoldable pub copy_down : ℕ → ℕ → ℕ → Bytes → Bytes
copy_down zero d s m = m
copy_down (suc n) d s m = copy_down n (d - 1) (s - 1) (update m (d - 1) (m (s - 1)))

unfoldable pub memmove : ℕ → ℕ → ℕ → Bytes → Bytes
unfolding copy_up copy_down
memmove dst src n m =
    if n == 0
    then m
    else if ltb src dst && ltb dst (src + n)
    then copy_down n (dst + n) (src + n) m
    else copy_up n dst src m

unfoldable pub memcpy : ℕ → ℕ → ℕ → Bytes → Bytes
unfolding memmove
memcpy dst src n m = memmove dst src n m

-- What a comparison of two bytes returns, `a - b` as an `int`.
pub data Difference : Type 0 where
  less : ℕ → Difference
  same : Difference
  more : ℕ → Difference

abbrev pub difference : ℕ → ℕ → Difference
difference a b = if ltb a b then less (b - a) else if ltb b a then more (a - b) else same

-- The count and the index of `while (n-- > 0)`: `n` bytes are left, from index `i` on.
memcmp_loop : ℕ → ℕ → Bytes → Bytes → Difference
memcmp_loop zero i s t = same
memcmp_loop (suc n) i s t =
    let rest = memcmp_loop n (i + 1) s t in if s i /= t i then difference (s i) (t i) else rest

unfoldable pub memcmp : Bytes → Bytes → ℕ → Difference
unfolding memcmp_loop
memcmp s t n = memcmp_loop n 0 s t

-- the loop, and the test `n == 0` and the difference behind it
strncmp_loop : ℕ → ℕ → Bytes → Bytes → Difference
strncmp_loop zero i p q = same
strncmp_loop (suc n) i p q =
    let rest = strncmp_loop n (i + 1) p q in
    if (p i /= 0) && (p i == q i) then rest else difference (p i) (q i)

unfoldable pub strncmp : Bytes → Bytes → ℕ → Difference
unfolding strncmp_loop
strncmp p q n = strncmp_loop n 0 p q

-- `while (n-- > 0) *s++ = 0`
fill_zero : ℕ → ℕ → Bytes → Bytes
fill_zero zero i s = s
fill_zero (suc n) i s = fill_zero n (i + 1) (update s i 0)

-- Copies up to the zero byte, and goes on to the second loop with the bytes that are left.
strncpy_loop : ℕ → ℕ → Bytes → Bytes → Bytes
strncpy_loop zero i s t = s
strncpy_loop (suc n) i s t =
    let s' = update s i (t i) in
    let rest = strncpy_loop n (i + 1) s' t in
    let zeros = fill_zero n (i + 1) s' in if t i /= 0 then rest else zeros

-- A negative `n` writes nothing, as 0 does.
unfoldable pub strncpy : Bytes → Bytes → ℕ → Bytes
unfolding strncpy_loop fill_zero
strncpy s t n = strncpy_loop n 0 s t

-- `n` more bytes may be copied. The zero that ends the source is copied by the loop and written
-- again behind it, one place further on, where the loop has stopped.
safestrcpy_loop : ℕ → ℕ → Bytes → Bytes → Bytes
safestrcpy_loop zero i s t = update s i 0
safestrcpy_loop (suc n) i s t =
    let s' = update s i (t i) in
    let rest = safestrcpy_loop n (i + 1) s' t in
    let ended = update s' (i + 1) 0 in if t i /= 0 then rest else ended

-- A negative `n` writes nothing, as 0 does.
unfoldable pub safestrcpy : Bytes → Bytes → ℕ → Bytes
unfolding safestrcpy_loop
safestrcpy s t n = if n == 0 then s else safestrcpy_loop (n - 1) 0 s t

-- `none` if there is no zero byte among the next `fuel`.
strlen_loop : ℕ → ℕ → Bytes → Option ℕ
strlen_loop zero n s = none
strlen_loop (suc fuel) n s =
    let rest = strlen_loop fuel (n + 1) s in if s n == 0 then some n else rest

unfoldable pub strlen : ℕ → Bytes → Option ℕ
unfolding strlen_loop
strlen fuel s = strlen_loop fuel 0 s
