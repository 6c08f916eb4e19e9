-- ===== src/Ulib/Laws.antt =====
-- What the functions of user/ulib.c compute.
use os2025_assignment.Base.{
  ℕ, zero, suc, ◌+◌, ◌-◌, ◌*◌, ◌%◌, ◌^◌, ◌≤◌, ◌<◌, ◌≡◌, ◌≢◌, ◌↔◌, refl, ◌∙◌, ap, Bool, true, false,
  inl, inr, not, some, List, [], ◌∷◌, ◌++◌, map, arith, ◌==◌, ==_ne, /=_ne, ◌/=◌, if◌then◌else◌,
  Bool-cases, update, within, length,
}
use native.Mathlib.Decide.{ℕ_discrete}
use native.Mathlib.Nat.{pow-suc, one-le-pow}
use os2025_assignment.Str.{Bytes, same}
use os2025_assignment.Str.Move.{copy_up_lem, copy_down_lem}
use os2025_assignment.Str.Copy.{run_length}
use os2025_assignment.Ulib.{
  strcpy_loop, strcpy, strcmp, is_break, gets_loop, gets, is_digit, atoi_loop, atoi, memmove,
}

-- `memmove` copies the `n` bytes from `src` on to `dst` as they stood before the call, also where
-- the two ranges overlap, and writes nowhere else.
pub memmove_overlap :
    (dst src n : ℕ) (m : Bytes) (a : ℕ)
    → memmove dst src n m a ≡ (if within dst n a then m (src + (a - dst)) else m a)
unfolding memmove
memmove_overlap dst src n m a =
    ground (arith, copy_up_lem n dst src m a, copy_down_lem n dst src m a)

abbrev pub IsText : List ℕ → Type 0
IsText [] = Unit
IsText (x ∷ s) = (x ≢ 0) × IsText s

-- `strcmp` returns 0 exactly when the strings are equal.
pub strcmp_iff : (p q : List ℕ) → IsText p → IsText q → (strcmp p q ≡ same) ↔ (p ≡ q)
unfolding strcmp
strcmp_iff [] [] a b = ((λ h. refl), (λ h. refl))
strcmp_iff [] (y ∷ q) a b = ((λ h. ground (arith, b.0)), (λ h. ground arith))
strcmp_iff (x ∷ p) [] a b = ((λ h. ground (arith, a.0)), (λ h. ground arith))
strcmp_iff (x ∷ p) (y ∷ q) a b =
    ((λ h. ground (arith, strcmp_iff p q a.1 b.1)), (λ h. ground (arith, strcmp_iff p q a.1 b.1)))

-- a line break stands at the end only
abbrev pub one_line : List ℕ → Bool
one_line [] = true
one_line (c ∷ s) = (if is_break c then (elim s [ [] ↦ true | _ ∷ _ ↦ false ]) else one_line s)

-- `gets` takes a first part of the input, of at most `max - 1` bytes, in which a line break stands
-- at the end only.
pub gets-takes :
    (max : ℕ) (input : List ℕ)
    → ((gets max input).0 ++ (gets max input).1 ≡ input)
      × (length (gets max input).0 ≤ max - 1)
      × (one_line (gets max input).0 ≡ true)
unfolding gets gets_loop
gets-takes max input = loop (max - 1) input
  where
    loop :
        (left : ℕ) (input : List ℕ)
        → ((gets_loop left input).0 ++ (gets_loop left input).1 ≡ input)
          × (length (gets_loop left input).0 ≤ left)
          × (one_line (gets_loop left input).0 ≡ true)
    loop zero input = (refl, omega arith, refl)
    loop (suc left) [] = (refl, omega arith, refl)
    loop (suc left) (c ∷ input) =
        let rest = loop left input in
        elim (Bool-cases (is_break c)) [
          | inl e ↦ rw e (refl, omega arith, rw e refl)
          | inr e ↦ rw e (ap (λ s. c ∷ s) (rest.0), omega (arith, rest.1), rw e (rest.2))
        ]

-- the number that the digits denote
abbrev pub number : List ℕ → ℕ
number [] = 0
number (d ∷ ds) = d * 10 ^ length ds + number ds

abbrev pub IsDecimal : List ℕ → Type 0
IsDecimal [] = Unit
IsDecimal (d ∷ ds) = (d < 10) × IsDecimal ds

-- the string goes on with no digit
abbrev pub stops : List ℕ → Bool
stops [] = true
stops (c ∷ s) = not (is_digit c)

digit : (d : ℕ) → d < 10 → is_digit (d + b'0') ≡ true
digit d h = ground arith

le_mul : (a p : ℕ) → 1 ≤ p → a ≤ a * p
le_mul a p h = grind arith

pub regroup : (n d l k : ℕ) → n * 10 ^ suc l + (d * 10 ^ l + k) ≡ (n * 10 + d) * 10 ^ l + k
regroup n d l k = rw (pow-suc 10 l) (grind arith)

atoi_loop_lem :
    (ds rest : List ℕ) (n : ℕ)
    → IsDecimal ds
    → stops rest ≡ true
    → n * 10 ^ length ds + number ds < 2 ^ 32
    → atoi_loop n (map (λ d. d + b'0') ds ++ rest) ≡ n * 10 ^ length ds + number ds
unfolding atoi_loop
atoi_loop_lem [] [] n dec e h = omega arith
atoi_loop_lem [] (c ∷ rest) n dec e h = ground arith
atoi_loop_lem (d ∷ ds) rest n dec e h =
    let p = 10 ^ length ds in
    let whole = regroup n d (length ds) (number ds) in
    let small : n * 10 + d < 2 ^ 32 =
      omega (arith, le_mul (n * 10 + d) p (one-le-pow (length ds) 10 (omega arith)), whole) in
    let value : (n * 10 + (d + b'0') - b'0') % 2 ^ 32 ≡ n * 10 + d = omega arith in
    rw (digit d (dec.0), value, whole) (atoi_loop_lem ds rest (n * 10 + d) (dec.1) e (omega arith))

-- `atoi` reads the decimal number in front of a string, if it is smaller than 2^32.
pub atoi-number :
    (ds rest : List ℕ)
    → IsDecimal ds
    → stops rest ≡ true
    → number ds < 2 ^ 32
    → atoi (map (λ d. d + b'0') ds ++ rest) ≡ number ds
unfolding atoi
atoi-number ds rest dec e h = atoi_loop_lem ds rest 0 dec e (omega arith) ∙ omega arith

last_byte : (s t : Bytes) (i j : ℕ) → update s i (t i) j ≡ (if within i 1 j then t j else s j)
last_byte s t i j = elim (ℕ_discrete j i) [ yes e ↦ rw e (ground arith) | no ne ↦ ground arith ]

first_byte :
    (s t : Bytes) (i j n : ℕ)
    → (if within (i + 1) (n + 1) j then t j else update s i (t i) j)
      ≡ (if within i (suc n + 1) j then t j else s j)
first_byte s t i j n = elim (ℕ_discrete j i) [ yes e ↦ rw e (ground arith) | no ne ↦ ground arith ]

strcpy_loop_lem :
    (fuel i : ℕ) (s t : Bytes) (j : ℕ)
    → run_length fuel i t < fuel
    → (s' : Bytes) × (strcpy_loop fuel i s t ≡ some s')
      × (s' j ≡ (if within i (run_length fuel i t + 1) j then t j else s j))
unfolding strcpy_loop run_length
strcpy_loop_lem zero i s t j h = absurd (omega arith)
strcpy_loop_lem (suc fuel) i s t j h = elim (ℕ_discrete (t i) 0) [
  | yes end_ ↦
      let e : (t i == 0) ≡ true = ground arith in
      let e' : (t i /= 0) ≡ false = ground arith in
      (update s i (t i), rw e refl, rw e' (last_byte s t i j))
  | no more ↦
      let e : (t i == 0) ≡ false = ==_ne (t i) 0 more in
      let e' : (t i /= 0) ≡ true = /=_ne (t i) 0 more in
      let rest =
        strcpy_loop_lem fuel (i + 1) (update s i (t i)) t j (omega (arith, (rw e' at h))) in
      (rest.0, rw e (rest.1), rest.2 ∙ rw e' (first_byte s t i j (run_length fuel (i + 1) t)))
]

-- `strcpy` copies a string with its zero byte, and writes nothing else, if the zero byte is within
-- reach.
pub strcpy_lem :
    (fuel : ℕ) (s t : Bytes) (j : ℕ)
    → run_length fuel 0 t < fuel
    → (s' : Bytes) × (strcpy fuel s t ≡ some s')
      × (s' j ≡ (if within 0 (run_length fuel 0 t + 1) j then t j else s j))
unfolding strcpy
strcpy_lem fuel s t j h = strcpy_loop_lem fuel 0 s t j h
