-- ===== src/Print.antt =====
-- user/printf.c. The output is the list of the bytes that `putc` writes; a word is the 64-bit pattern
-- that `va_arg` takes, of which an `int` is the low half.
pub mod Numbers
mod Checks
use os2025_assignment.Base.{
  ℕ, zero, suc, ◌+◌, ◌-◌, ◌*◌, ◌/◌, ◌%◌, ◌^◌, Bool, true, false, ◌&&◌, Option, none, some, List, [],
  ◌∷◌, ◌++◌, map, ltb, leb, ◌==◌, if◌then◌else◌,
}

-- the array `digits`
abbrev pub digit_char : ℕ → ℕ
digit_char d = if ltb d 10 then d + b'0' else d - 10 + b'A'

-- sizeof(buf)
abbrev pub buf_size : ℕ
buf_size = 16

-- The loop of `printint` with `room` places left in `buf`, whose last element comes first in `buf`
-- here, as it is printed. The digits are numbers until then.
unfoldable pub digits_loop : ℕ → ℕ → ℕ → List ℕ → List ℕ
digits_loop zero base x buf = buf
digits_loop (suc room) base x buf =
    let rest = digits_loop room base (x / base) (x % base ∷ buf) in
    if x / base == 0 then x % base ∷ buf else rest

abbrev pub is_negative : ℕ → Bool
is_negative xx = leb (2 ^ 31) (xx % 2 ^ 32)

unfoldable pub print_digits : ℕ → ℕ → List ℕ
print_digits x base = map digit_char (digits_loop buf_size base (x % 2 ^ 32) [])

-- `sgn` tells whether `xx` is signed.
unfoldable pub printint : ℕ → ℕ → Bool → List ℕ
printint xx base sgn =
    if sgn && is_negative xx
    then b'-' ∷ print_digits (2 ^ 32 - xx % 2 ^ 32) base
    else print_digits xx base

-- the loop of `printptr`, with `n` digits left
unfoldable pub ptr_loop : ℕ → ℕ → List ℕ
ptr_loop zero x = []
ptr_loop (suc n) x = digit_char (x / 2 ^ 60) ∷ ptr_loop n (x * 2 ^ 4 % 2 ^ 64)

unfoldable pub printptr : ℕ → List ℕ
printptr x = b'0' ∷ b'x' ∷ ptr_loop 16 x

-- an argument of `vprintf`: a string is `none` if the pointer is null
pub data Arg : Type 0 where
  word : ℕ → Arg
  string : Option (List ℕ) → Arg

-- `va_arg`: an argument that is missing or of the other kind is undefined behaviour, `none`
abbrev pub with_word : List Arg → (ℕ → List ℕ) → Option (List ℕ × List Arg)
with_word (word x ∷ args) f = some (f x, args)
with_word _ f = none

-- the string "(null)"
abbrev pub null_text : List ℕ
null_text = b'(' ∷ b'n' ∷ b'u' ∷ b'l' ∷ b'l' ∷ b')' ∷ []

abbrev pub with_string : List Arg → Option (List ℕ × List Arg)
with_string (string none ∷ args) = some (null_text, args)
with_string (string (some s) ∷ args) = some (s, args)
with_string _ = none

-- the character behind a '%': what is printed, and the arguments that are left
unfoldable pub convert : ℕ → List Arg → Option (List ℕ × List Arg)
convert c args =
    if c == b'd'
    then with_word args (λ x. printint x 10 true)
    else if c == b'l'
    then with_word args (λ x. printint x 10 false)
    else if c == b'x'
    then with_word args (λ x. printint x 16 false)
    else if c == b'p'
    then with_word args printptr
    else if c == b's'
    then with_string args
    else if c == b'c'
    then with_word args (λ x. x % 2 ^ 8 ∷ [])
    else if c == b'%'
    then some (c ∷ [], args)
    else some (b'%' ∷ c ∷ [], args)

-- `state` is true behind a '%'.
unfoldable pub vprintf_loop : Bool → List ℕ → List Arg → Option (List ℕ)
vprintf_loop state [] args = some []
vprintf_loop false (c ∷ fmt) args =
    let after = vprintf_loop true fmt args in
    let rest = vprintf_loop false fmt args in
    if c == b'%' then after else elim rest [ none ↦ none | some out ↦ some (c ∷ out) ]
vprintf_loop true (c ∷ fmt) args = elim (convert c args) [
  | none ↦ none
  | some (text, args') ↦ elim (vprintf_loop false fmt args') [
    | none ↦ none
    | some out ↦ some (text ++ out)
  ]
]

unfoldable pub vprintf : List ℕ → List Arg → Option (List ℕ)
vprintf fmt args = vprintf_loop false fmt args
