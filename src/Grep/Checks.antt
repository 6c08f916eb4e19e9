-- ===== src/Grep/Checks.antt =====
-- The matcher of user/grep.c on some patterns, and its theorems at one of them.
use os2025_assignment.Base.{ℕ, ◌≡◌, refl, true, false, ◌↔◌, List, [], ◌∷◌, ◌++◌, arith}
use os2025_assignment.Grep.{matchhere, match_text}
use os2025_assignment.Grep.Language.{Begins, match_text_iff}

-- "a*b"
abbrev star_pattern : List ℕ
star_pattern = b'a' ∷ b'*' ∷ b'b' ∷ []

-- "caab"
abbrev sample : List ℕ
sample = b'c' ∷ b'a' ∷ b'a' ∷ b'b' ∷ []

match_text_iff_example : (match_text star_pattern sample ≡ true) ↔ (
    (before : List ℕ) × (after : List ℕ) × (before ++ after ≡ sample) × Begins star_pattern after)
match_text_iff_example = match_text_iff star_pattern sample (λ e. absurd (omega (arith, e)))

found_inside : match_text star_pattern sample ≡ true
unfolding match_text matchhere
found_inside = refl

not_at_start : match_text (b'^' ∷ star_pattern) sample ≡ false
unfolding match_text matchhere
not_at_start = refl
