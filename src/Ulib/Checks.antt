-- ===== src/Ulib/Checks.antt =====
-- The theorems about user/ulib.c on small strings.
use os2025_assignment.Base.{ℕ, ◌-◌, ◌≤◌, ◌≡◌, true, List, [], ◌∷◌, ◌++◌, length}
use os2025_assignment.Str.{Bytes}
use os2025_assignment.Ulib.{gets}
use os2025_assignment.Ulib.Laws.{one_line, gets-takes}

-- "ab", and "x", a line break, "yz"
abbrev ab : List ℕ
ab = b'a' ∷ b'b' ∷ []

abbrev two_lines : List ℕ
two_lines = b'x' ∷ b'\n' ∷ b'y' ∷ b'z' ∷ []

-- the bytes 3, 2, 1, 0, 0, ...
abbrev countdown : Bytes
countdown i = 3 - i

gets-takes_example :
    ((gets 4 two_lines).0 ++ (gets 4 two_lines).1 ≡ two_lines)
    × (length (gets 4 two_lines).0 ≤ 3)
    × (one_line (gets 4 two_lines).0 ≡ true)
gets-takes_example = gets-takes 4 two_lines
