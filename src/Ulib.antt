-- ===== src/Ulib.antt =====
-- user/ulib.c. `memmove` and `strcpy` work on memory and on arrays of bytes as in Str.antt; the other
-- functions are given a string as the list of its bytes before the zero byte.
pub mod Laws
mod Checks
use os2025_assignment.Base.{
  ℕ, zero, suc, ◌+◌, ◌-◌, ◌*◌, ◌%◌, ◌^◌, Bool, ◌&&◌, ◌||◌, Option, none, some, List, [], ◌∷◌, ltb,
  leb, ◌==◌, if◌then◌else◌, update,
}
use os2025_assignment.Str.{Bytes, Difference, same, difference, copy_up, copy_down}

-- the loop, from index `i` on, as far as `fuel` reaches
unfoldable pub strcpy_loop : ℕ → ℕ → Bytes → Bytes → Option Bytes
strcpy_loop zero i s t = none
strcpy_loop (suc fuel) i s t =
    let rest = strcpy_loop fuel (i + 1) (update s i (t i)) t in
    if t i == 0 then some (update s i (t i)) else rest

-- `s` is the destination.
unfoldable pub strcpy : ℕ → Bytes → Bytes → Option Bytes
strcpy fuel s t = strcpy_loop fuel 0 s t

unfoldable pub strcmp : List ℕ → List ℕ → Difference
strcmp [] [] = same
strcmp [] (y ∷ q) = difference 0 y
strcmp (x ∷ p) [] = difference x 0
strcmp (x ∷ p) (y ∷ q) = let rest = strcmp p q in if x == y then rest else difference x y

-- The pointer that is returned is the rest of the string from there on.
unfoldable pub strchr : List ℕ → ℕ → Option (List ℕ)
strchr [] c = none
strchr (x ∷ s) c = let rest = strchr s c in if x == c then some (x ∷ s) else rest

abbrev pub is_break : ℕ → Bool
is_break c = (c == b'\n') || (c == b'\r')

-- The bytes stored with room for `left` more, and what of the input is still to be read. The input
-- is what the calls of `read` will give before one of them gives no byte.
unfoldable pub gets_loop : ℕ → List ℕ → List ℕ × List ℕ
gets_loop zero input = ([], input)
gets_loop (suc left) [] = ([], [])
gets_loop (suc left) (c ∷ input) =
    let rest = gets_loop left input in if is_break c then (c ∷ [], input) else (c ∷ rest.0, rest.1)

-- The string that is left in the buffer.
unfoldable pub gets : ℕ → List ℕ → List ℕ × List ℕ
gets max input = gets_loop (max - 1) input

abbrev pub is_digit : ℕ → Bool
is_digit c = leb b'0' c && leb c b'9'

-- An `int` is its 32-bit pattern.
unfoldable pub atoi_loop : ℕ → List ℕ → ℕ
atoi_loop n [] = n
atoi_loop n (c ∷ s) =
    let rest = atoi_loop ((n * 10 + c - b'0') % 2 ^ 32) s in if is_digit c then rest else n

unfoldable pub atoi : List ℕ → ℕ
atoi s = atoi_loop 0 s

unfoldable pub memmove : ℕ → ℕ → ℕ → Bytes → Bytes
memmove dst src n m = if ltb dst src then copy_up n dst src m else copy_down n (dst + n) (src + n) m
