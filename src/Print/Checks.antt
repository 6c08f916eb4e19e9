-- ===== src/Print/Checks.antt =====
-- Numbers and formats that are printed.
use os2025_assignment.Base.{
  ℕ, ◌-◌, ◌^◌, ◌≤◌, ◌≡◌, refl, true, false, ◌&&◌, inr, some, none, List, [], ◌∷◌, ◌++◌,
  if◌then◌else◌, length, arith,
}
use os2025_assignment.Ulib.{atoi}
use os2025_assignment.Print.{
  word, string, digits_loop, print_digits, is_negative, printint, convert, vprintf_loop, vprintf,
}
use os2025_assignment.Print.Numbers.{printint-atoi, printint-length}

-- -25
minus : printint (2 ^ 32 - 25) 10 true ≡ b'-' ∷ b'2' ∷ b'5' ∷ []
unfolding printint print_digits digits_loop
minus = refl

printint-atoi_example :
    (s : List ℕ) × (printint 4294967271 10 true
      ≡ (if true && is_negative 4294967271 then b'-' ∷ s else s))
    × (atoi (s ++ [])
        ≡ (if true && is_negative 4294967271 then 2 ^ 32 - 4294967271 else 4294967271))
printint-atoi_example = printint-atoi 4294967271 true [] (omega arith) refl

printint-length_example : length (printint 65535 16 false) ≤ 11
printint-length_example = printint-length 65535 16 false (inr refl)

-- "%x%%%s"
formatted :
    vprintf (37 ∷ b'x' ∷ 37 ∷ 37 ∷ 37 ∷ b's' ∷ []) (word 31 ∷ string (some (b'!' ∷ [])) ∷ [])
    ≡ some (b'1' ∷ b'F' ∷ 37 ∷ b'!' ∷ [])
unfolding vprintf vprintf_loop convert printint print_digits digits_loop
formatted = refl

-- "%d" without an argument
missing : vprintf (37 ∷ b'd' ∷ []) [] ≡ none
unfolding vprintf vprintf_loop convert
missing = refl
