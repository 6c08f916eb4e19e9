-- ===== src/Str/Checks.antt =====
-- The theorems about kernel/string.c at the strings "abc" and "ab".
use os2025_assignment.Base.{◌≡◌, refl, some, slice, update}
use os2025_assignment.Str.{Bytes, memmove, safestrcpy, strlen}

abbrev abc : Bytes
abc = update (update (update (λ _. 0) 0 97) 1 98) 2 99

abbrev ab : Bytes
ab = update (update (λ _. 0) 0 97) 1 98

abbrev ones : Bytes
ones = λ _. 1

-- runs of the functions
cut_off :
    slice (safestrcpy ones abc 3) 0 4 ≡ slice (update (update (update ones 0 97) 1 98) 2 0) 0 4
unfolding safestrcpy
cut_off = refl

overlapping : slice (memmove 1 0 2 abc) 0 3 ≡ slice (update (update abc 1 97) 2 98) 0 3
unfolding memmove
overlapping = refl

measured : strlen 8 abc ≡ some 3
unfolding strlen
measured = refl
