-- ===== src/Grep.antt =====
-- user/grep.c: the matcher. A string is the list of its bytes before the zero byte, so `[]` is the
-- test for `\0`, and a pointer into a string is the rest of the list.
pub mod Language
mod Checks
use os2025_assignment.Base.{ℕ, Bool, true, false, ◌&&◌, ◌||◌, List, [], ◌∷◌, ◌==◌, if◌then◌else◌}

-- `re[0] == '.' || re[0] == *text`
abbrev pub fits : ℕ → ℕ → Bool
fits c x = (c == b'.') || (c == x)

-- `rest` is `matchhere` of the pattern behind the star.
unfoldable pub matchstar : (List ℕ → Bool) → ℕ → List ℕ → Bool
matchstar rest c [] = rest []
matchstar rest c (x ∷ text) =
    let more = matchstar rest c text in
    if rest (x ∷ text) then true else if fits c x then more else false

-- the test of one character, and `rest` for what follows it
unfoldable pub match_one : (List ℕ → Bool) → ℕ → List ℕ → Bool
match_one rest c [] = false
match_one rest c (x ∷ text) = if fits c x then rest text else false

abbrev pub is_empty : List ℕ → Bool
is_empty [] = true
is_empty (_ ∷ _) = false

unfoldable pub matchhere : List ℕ → List ℕ → Bool
unfolding matchstar match_one
matchhere [] text = true
matchhere (c ∷ []) text = if c == b'$' then is_empty text else match_one (matchhere []) c text
matchhere (c ∷ d ∷ re) text =
    let star = matchstar (matchhere re) c text in
    let one = match_one (matchhere (d ∷ re)) c text in if d == b'*' then star else one

-- the loop of `match`
unfoldable pub match_loop : List ℕ → List ℕ → Bool
match_loop re [] = matchhere re []
match_loop re (x ∷ text) =
    let more = match_loop re text in if matchhere re (x ∷ text) then true else more

unfoldable pub match_text : List ℕ → List ℕ → Bool
unfolding match_loop
match_text [] text = match_loop [] text
match_text (c ∷ re) text = if c == b'^' then matchhere re text else match_loop (c ∷ re) text
