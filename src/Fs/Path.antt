-- ===== src/Fs/Path.antt =====
-- How `skipelem` takes a path apart.
use os2025_assignment.Base.{
  ℕ, zero, suc, ◌+◌, ◌-◌, ◌≤◌, ◌<◌, ◌≡◌, ◌≢◌, refl, ◌∙◌, ap, inl, inr, ◌⊎◌, ◌&&◌, ltb, leb, some,
  List, [], ◌∷◌, ◌++◌, ◌==◌, ==_ne, if◌then◌else◌, Bool-cases, arith, update, length, get_or, min,
  replicate,
}
use native.Mathlib.Decide.{ℕ_discrete, dec_lt}
use os2025_assignment.Str.{Bytes}
use os2025_assignment.Fs.Dir.{slash, dirsiz, skip_slashes, split_elem, put_bytes, skipelem}

-- no slash in it
abbrev pub NoSlash : List ℕ → Type 0
NoSlash [] = Unit
NoSlash (c ∷ s) = (c ≢ slash) × NoSlash s

-- no slash at its start
abbrev pub NoLead : List ℕ → Type 0
NoLead [] = Unit
NoLead (c ∷ s) = c ≢ slash

skip_slashes_lem : (k : ℕ) (s : List ℕ) → NoLead s → skip_slashes (replicate k slash ++ s) ≡ s
unfolding skip_slashes
skip_slashes_lem zero [] h = refl
skip_slashes_lem zero (c ∷ s) h = rw (==_ne c slash h)
skip_slashes_lem (suc k) s h = skip_slashes_lem k s h

split_elem_lem :
    (elem : List ℕ) (m : ℕ) (rest : List ℕ)
    → NoSlash elem
    → (m ≡ 0 → rest ≡ [])
    → split_elem (elem ++ (replicate m slash ++ rest)) ≡ (elem, replicate m slash ++ rest)
unfolding split_elem
split_elem_lem [] zero rest h e = rw (e refl)
split_elem_lem [] (suc m) rest h e = refl
split_elem_lem (c ∷ elem) m rest (a, b) e = rw (==_ne c slash a, split_elem_lem elem m rest b e)

-- the byte `j` behind `put_bytes`
abbrev pub put_at : ℕ → ℕ → List ℕ → Bytes → ℕ → ℕ
put_at n i s name j = if leb i j && ltb j (i + min n (length s)) then get_or s (j - i) 0 else name j

get_or-tail :
    (c : ℕ) (s : List ℕ) (i j : ℕ) → i < j → get_or (c ∷ s) (j - i) 0 ≡ get_or s (j - (i + 1)) 0
get_or-tail c s i j h = let e : j - i ≡ suc (j - (i + 1)) = omega arith in rw e refl

get_or-head : (c : ℕ) (s : List ℕ) (i j : ℕ) → j ≡ i → get_or (c ∷ s) (j - i) 0 ≡ c
get_or-head c s i j h = let e : j - i ≡ 0 = omega arith in rw e refl

put_step :
    (n i c : ℕ) (s : List ℕ) (name : Bytes) (j : ℕ)
    → put_at n (i + 1) s (update name i c) j ≡ put_at (suc n) i (c ∷ s) name j
put_step n i c s name j = elim (ℕ_discrete j i) [
  | yes e ↦ ground (arith, get_or-head c s i j e)
  | no ne ↦ elim (dec_lt i j) [
    | yes l ↦ ground (arith, get_or-tail c s i j l)
    | no g ↦ ground arith
  ]
]

put_bytes_lem :
    (n i : ℕ) (s : List ℕ) (name : Bytes) (j : ℕ) → put_bytes n i s name j ≡ put_at n i s name j
unfolding put_bytes
put_bytes_lem zero i s name j = ground arith
put_bytes_lem (suc n) i [] name j = ground arith
put_bytes_lem (suc n) i (c ∷ s) name j =
    put_bytes_lem n (i + 1) s (update name i c) j ∙ put_step n i c s name j

-- The array holds the name, cut off behind DIRSIZ bytes, and a zero byte if there is room for one.
pub Names : List ℕ → Bytes → Bytes → Type 0
Names elem name name' =
    ((j : ℕ) → j < dirsiz → j < length elem → name' j ≡ get_or elem j 0)
    × (length elem < dirsiz → name' (length elem) ≡ 0)
    × ((j : ℕ) → (length elem < j) ⊎ (dirsiz ≤ j) → name' j ≡ name j)

put_name : List ℕ → Bytes → Bytes
put_name elem name =
    if leb dirsiz (length elem)
    then put_bytes dirsiz 0 elem name
    else update (put_bytes (length elem) 0 elem name) (length elem) 0

put_name-Names : (elem : List ℕ) (name : Bytes) → Names elem name (put_name elem name)
unfolding Names put_name
put_name-Names elem name = elim (Bool-cases (leb dirsiz (length elem))) [
  | inl long ↦ rw long (
    λ j l h. put_bytes_lem dirsiz 0 elem name j ∙ ground arith,
    λ h. absurd (ground arith),
    λ j h. put_bytes_lem dirsiz 0 elem name j ∙ ground arith,
  )
  | inr short ↦ rw short (
    λ j l h.
        ap (λ x. if j == length elem then 0 else x) (put_bytes_lem (length elem) 0 elem name j)
        ∙ ground arith,
    λ h. ground arith,
    λ j h.
        ap (λ x. if j == length elem then 0 else x) (put_bytes_lem (length elem) 0 elem name j)
        ∙ ground arith,
  )
]

-- A path that is some slashes, a name without slashes, some slashes and the rest, which has no slash
-- at its start and is empty if no slash stands before it, is taken apart into the name and the rest:
-- `skipelem` gives the rest, and the array holds the name, cut off behind DIRSIZ bytes.
pub skipelem_lem :
    (k m : ℕ) (c : ℕ) (elem rest : List ℕ) (name : Bytes)
    → NoSlash (c ∷ elem)
    → NoLead rest
    → (m ≡ 0 → rest ≡ [])
    → (name' : Bytes) × (skipelem
          (replicate k slash ++ ((c ∷ elem) ++ (replicate m slash ++ rest)))
          name
        ≡ some (rest, name'))
      × Names (c ∷ elem) name name'
unfolding skipelem put_name
skipelem_lem k m c elem rest name (a, b) h e = (
  put_name (c ∷ elem) name,
  rw
      (
        skipelem,
        skip_slashes_lem k ((c ∷ elem) ++ (replicate m slash ++ rest)) a,
        split_elem_lem (c ∷ elem) m rest (a, b) e,
        skip_slashes_lem m rest h,
      )
      refl,
  put_name-Names (c ∷ elem) name,
)
