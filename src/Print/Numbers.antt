-- ===== src/Print/Numbers.antt =====
-- The numbers that `printint` of user/printf.c prints.
use os2025_assignment.Base.{
  ℕ, zero, suc, ◌+◌, ◌-◌, ◌*◌, ◌/◌, ◌%◌, ◌^◌, ◌≤◌, ◌<◌, ◌≡◌, refl, sym, ◌∙◌, ap, ap₂, ◌⊎◌, inl, inr,
  Bool, true, false, Bool-cases, ◌&&◌, List, [], ◌∷◌, ◌++◌, map, ◌==◌, if◌then◌else◌, length,
  leb→le, arith,
}
use native.Mathlib.Nat.{pow-suc, pow-zero, div-lt_iff_lt-mul, div-eq_of_lt}
use os2025_assignment.Ulib.{atoi}
use os2025_assignment.Ulib.Laws.{number, IsDecimal, stops, regroup, atoi-number}
use os2025_assignment.Print.{digit_char, digits_loop, print_digits, is_negative, printint}

none_left : (x p n : ℕ) → x < 1 → n ≡ x * p + n
none_left x p n h = let e : x ≡ 0 = omega arith in rw e (omega arith)

only_digit : (x p n : ℕ) → x / 10 == 0 ≡ true → x % 10 * p + n ≡ x * p + n
only_digit x p n h =
    let z : x / 10 ≡ 0 = ground (arith, h) in let e : x % 10 ≡ x = omega arith in rw e refl

next_digit : (x l n : ℕ) → x / 10 * 10 ^ suc l + (x % 10 * 10 ^ l + n) ≡ x * 10 ^ l + n
next_digit x l n =
    let e : x / 10 * 10 + x % 10 ≡ x = omega arith in
    regroup (x / 10) (x % 10) l n ∙ ap (λ y. y * 10 ^ l + n) e

-- the digits of a number smaller than 10^room, in front of others
digits_loop-number :
    (room x : ℕ) (buf : List ℕ)
    → x < 10 ^ room
    → IsDecimal buf
    → (number (digits_loop room 10 x buf) ≡ x * 10 ^ length buf + number buf)
      × IsDecimal (digits_loop room 10 x buf)
unfolding digits_loop
digits_loop-number zero x buf h dec = (none_left x (10 ^ length buf) (number buf) h, dec)
digits_loop-number (suc room) x buf h dec = elim (Bool-cases (x / 10 == 0)) [
  | inl e ↦ rw (digits_loop, e) (only_digit x (10 ^ length buf) (number buf) e, (omega arith, dec))
  | inr e ↦
      let rest =
        digits_loop-number room (x / 10) (x % 10 ∷ buf) (omega (arith, pow-suc 10 room))
          (omega arith, dec) in
      rw (digits_loop, e) (rest.0 ∙ next_digit x (length buf) (number buf), rest.1)
]

base_one : (base x : ℕ) → x < base ^ 1 → x < base
base_one base x h = grind (arith, pow-suc base 0, pow-zero base)

-- A number smaller than base^(k + 1) has k + 1 digits at most.
digits_loop-length :
    (base k room x : ℕ) (buf : List ℕ)
    → 0 < base
    → x < base ^ suc k
    → length (digits_loop room base x buf) ≤ suc k + length buf
unfolding digits_loop
digits_loop-length base k zero x buf pos h = omega arith
digits_loop-length base zero (suc room) x buf pos h =
    let z : x / base == 0 ≡ true = rw (div-eq_of_lt (base_one base x h)) refl in
    rw (digits_loop, z) (omega arith)
digits_loop-length base (suc k) (suc room) x buf pos h = elim (Bool-cases (x / base == 0)) [
  | inl e ↦ rw (digits_loop, e) (omega arith)
  | inr e ↦
      let less : x / base < base ^ suc k =
        ((div-lt_iff_lt-mul pos).1) (rw (sym (pow-suc base (suc k))) h) in
      rw (digits_loop, e)
        (omega (arith, digits_loop-length base k room (x / base) (x % base ∷ buf) pos less))
]

decimal_chars : (ds : List ℕ) → IsDecimal ds → map digit_char ds ≡ map (λ d. d + b'0') ds
decimal_chars [] h = refl
decimal_chars (d ∷ ds) (h, rest) = ap₂ ◌∷◌ (ground arith) (decimal_chars ds rest)

print_digits-atoi :
    (x : ℕ) (rest : List ℕ) → x < 2 ^ 32 → stops rest ≡ true → atoi (print_digits x 10 ++ rest) ≡ x
unfolding print_digits
print_digits-atoi x rest h e =
    let same : x % 2 ^ 32 ≡ x = omega arith in
    let (value, dec) = digits_loop-number 16 x [] (omega arith) tt in
    let small : number (digits_loop 16 10 x []) < 2 ^ 32 = omega arith in
    rw (same, decimal_chars (digits_loop 16 10 x []) dec)
      (atoi-number (digits_loop 16 10 x []) rest dec e small ∙ (value ∙ omega arith))

large : (sgn : Bool) (xx : ℕ) → (sgn && is_negative xx) ≡ true → 2 ^ 31 ≤ xx % 2 ^ 32
large true xx e = leb→le (2 ^ 31) (xx % 2 ^ 32) e
large false xx e = ground (arith, e)

length-digits : (ds : List ℕ) → length (map digit_char ds) ≡ length ds
length-digits [] = refl
length-digits (d ∷ ds) = ap suc (length-digits ds)

-- `printint` prints an `int` in decimal so that `atoi` reads it back: a text that stands for its
-- amount, behind a minus sign if it is signed and negative.
pub printint-atoi :
    (xx : ℕ) (sgn : Bool) (rest : List ℕ)
    → xx < 2 ^ 32
    → stops rest ≡ true
    → (s : List ℕ) × (printint xx 10 sgn ≡ (if sgn && is_negative xx then b'-' ∷ s else s))
      × (atoi (s ++ rest) ≡ (if sgn && is_negative xx then 2 ^ 32 - xx else xx))
unfolding printint
printint-atoi xx sgn rest h e = elim (Bool-cases (sgn && is_negative xx)) [
  | inl n ↦ (
    print_digits (2 ^ 32 - xx % 2 ^ 32) 10,
    rw (printint, n) refl,
    rw n (
        print_digits-atoi (2 ^ 32 - xx % 2 ^ 32) rest (omega (arith, large sgn xx n)) e
        ∙ omega (arith, large sgn xx n)),
  )
  | inr n ↦ (print_digits xx 10, rw (printint, n) refl, rw n (print_digits-atoi xx rest h e))
]

-- The text of a number in base 10 or 16 fits into the 16 bytes of `buf`: it has eleven at most.
pub printint-length :
    (xx base : ℕ) (sgn : Bool) → (base ≡ 10) ⊎ (base ≡ 16) → length (printint xx base sgn) ≤ 11
unfolding printint print_digits
printint-length xx base sgn h = elim (Bool-cases (sgn && is_negative xx)) [
  | inl n ↦ rw (printint, n) (omega (arith, few (2 ^ 32 - xx % 2 ^ 32)))
  | inr n ↦ rw (printint, n) (omega (arith, few xx))
]
  where
    few : (x : ℕ) → length (print_digits x base) ≤ 10
    few x = rw (length-digits (digits_loop 16 base (x % 2 ^ 32) [])) (bound h)
      where
        bound : (base ≡ 10) ⊎ (base ≡ 16) → length (digits_loop 16 base (x % 2 ^ 32) []) ≤ 10
        bound (inl e) =
            rw e (digits_loop-length 10 9 16 (x % 2 ^ 32) [] (omega arith) (omega arith))
        bound (inr e) =
            rw e (
              omega (arith, digits_loop-length 16 7 16 (x % 2 ^ 32) [] (omega arith) (omega arith)))
