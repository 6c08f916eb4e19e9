-- ===== src/Str/Compare.antt =====
-- What the results of `memcmp` and `strncmp` say of the bytes compared.
use os2025_assignment.Base.{
  ℕ, zero, suc, ◌+◌, ◌≡◌, refl, ◌↔◌, List, [], ◌∷◌, arith, ◌==◌, if◌then◌else◌, slice,
}
use os2025_assignment.Str.{Bytes, same, memcmp_loop, memcmp, strncmp_loop, strncmp}

-- the string that the next `n` bytes hold: all before the first zero
unfoldable pub text : ℕ → ℕ → Bytes → List ℕ
text zero i s = []
text (suc n) i s = if s i == 0 then [] else s i ∷ text n (i + 1) s

memcmp_loop_lem :
    (n i : ℕ) (s t : Bytes) → (memcmp_loop n i s t ≡ same) ↔ (slice s i n ≡ slice t i n)
unfolding memcmp_loop
memcmp_loop_lem zero i s t = ((λ h. refl), (λ h. refl))
memcmp_loop_lem (suc n) i s t = (
  (λ h. ground (arith, memcmp_loop_lem n (i + 1) s t)),
  (λ h. ground (arith, memcmp_loop_lem n (i + 1) s t)),
)

-- `memcmp` returns 0 exactly when the first `n` bytes agree.
pub memcmp_iff : (s t : Bytes) (n : ℕ) → (memcmp s t n ≡ same) ↔ (slice s 0 n ≡ slice t 0 n)
unfolding memcmp
memcmp_iff s t n = memcmp_loop_lem n 0 s t

strncmp_loop_lem :
    (n i : ℕ) (p q : Bytes) → (strncmp_loop n i p q ≡ same) ↔ (text n i p ≡ text n i q)
unfolding strncmp_loop text
strncmp_loop_lem zero i p q = ((λ h. refl), (λ h. refl))
strncmp_loop_lem (suc n) i p q = (
  (λ h. ground (arith, strncmp_loop_lem n (i + 1) p q)),
  (λ h. ground (arith, strncmp_loop_lem n (i + 1) p q)),
)

-- `strncmp` returns 0 exactly when the two strings, each cut off after `n` bytes, are equal.
pub strncmp_iff : (p q : Bytes) (n : ℕ) → (strncmp p q n ≡ same) ↔ (text n 0 p ≡ text n 0 q)
unfolding strncmp
strncmp_iff p q n = strncmp_loop_lem n 0 p q
