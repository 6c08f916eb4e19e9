-- ===== src/Vm/Walk.antt =====
-- What the tables say of an address, and how a mapping changes it.
use os2025_assignment.Base.{
  ℕ, zero, suc, ◌+◌, ◌-◌, ◌/◌, ◌%◌, ◌^◌, ◌<◌, ◌≡◌, ◌≢◌, refl, ◌∙◌, ap, sym, inl, inr, true, false,
  ◌&&◌, Option, none, some, leb, ==_self, ==_ne, if◌then◌else◌, Bool-cases, Option-cases, arith,
  update,
}
use os2025_assignment.Machine.{ok}
use os2025_assignment.Kalloc.{page_size}
use os2025_assignment.Vm.{
  Memory, maxva, round_down, pte_pa, pa_pte, is_valid, is_user, valid, entry, descend, walk,
  walkaddr, mappages_loop, mappages,
}

-- where the tables of a level and below have the entry for an address
unfoldable pub find : ℕ → (ℕ → ℕ) → ℕ → ℕ → Option ℕ
find zero pte table va = some (entry 0 table va)
find (suc level) pte table va =
    if is_valid (pte (entry (suc level) table va))
    then find level pte (pte_pa (pte (entry (suc level) table va))) va
    else none

-- the page that a user address lies in, and 0 if there is none
abbrev pub leaf_page : ℕ → ℕ
leaf_page pte = if is_valid pte && is_user pte then pte_pa pte else 0

unfoldable pub frame : (ℕ → ℕ) → ℕ → ℕ → ℕ
frame pte table va =
    if leb maxva va then 0 else elim (find 2 pte table va) [ none ↦ 0 | some p ↦ leaf_page (pte p) ]

descend_lem :
    (level table va : ℕ) (m : Memory)
    → descend level false table va m ≡ ok (find level m.pte table va) m
unfolding descend find
descend_lem zero table va m = refl
descend_lem (suc level) table va m =
    elim (Bool-cases (is_valid (m.pte (entry (suc level) table va)))) [
      | inl there ↦ rw there (descend_lem level (pte_pa (m.pte (entry (suc level) table va))) va m)
      | inr gone ↦ rw gone
    ]

-- `walkaddr` reads the tables and changes nothing.
pub walkaddr_lem : (table va : ℕ) (m : Memory) → walkaddr table va m ≡ ok (frame m.pte table va) m
unfolding walkaddr walk frame
walkaddr_lem table va m = elim (Bool-cases (leb maxva va)) [
  | inl high ↦ rw high
  | inr low ↦ elim (Option-cases (find 2 m.pte table va)) [
    | inl gone ↦ rw (low, descend_lem 2 table va m, gone)
    | inr (p, there) ↦ elim (Bool-cases (is_valid (m.pte p))) [
      | inr v ↦ rw (low, descend_lem 2 table va m, there, v)
      | inl v ↦ elim (Bool-cases (is_user (m.pte p))) [
        | inl u ↦ rw (low, descend_lem 2 table va m, there, v, u)
        | inr u ↦ rw (low, descend_lem 2 table va m, there, v, u)
      ]
    ]
  ]
]

-- The entry that an address has in the last table is none of those on the way to it.
abbrev pub Off : ℕ → ℕ → (ℕ → ℕ) → ℕ → ℕ → Type 0
Off p zero pte table va = Unit
Off p (suc level) pte table va =
    (p ≢ entry (suc level) table va)
    × Off p level pte (pte_pa (pte (entry (suc level) table va))) va

-- Writing such an entry does not change the way.
find-update :
    (p v level : ℕ) (pte : ℕ → ℕ) (table va : ℕ)
    → Off p level pte table va
    → find level (update pte p v) table va ≡ find level pte table va
unfolding find
find-update p v zero pte table va off = refl
find-update p v (suc level) pte table va off =
    rw (==_ne (entry (suc level) table va) p (λ e. off.0 (sym e)))
      (elim (Bool-cases (is_valid (pte (entry (suc level) table va)))) [
        | inl there ↦
            rw there
              (find-update p v level pte (pte_pa (pte (entry (suc level) table va))) va off.1)
        | inr gone ↦ rw gone
      ])

-- Where all tables are there, a `walk` that may allocate finds the same entry.
descend-there :
    (level table va p : ℕ) (m : Memory)
    → find level m.pte table va ≡ some p
    → descend level true table va m ≡ ok (some p) m
unfolding descend find
descend-there zero table va p m e = ap (λ r. ok r m) e
descend-there (suc level) table va p m e =
    elim (Bool-cases (is_valid (m.pte (entry (suc level) table va)))) [
      | inl there ↦
          rw there (
            descend-there level (pte_pa (m.pte (entry (suc level) table va))) va p m
              (rw there at e))
      | inr gone ↦ cc (rw gone at e)
    ]

flags_of :
    (pa perm : ℕ)
    → perm < 2 ^ 10
    → perm / 2 ^ 4 % 2 ≡ 1
    → pa % page_size ≡ 0
    → leaf_page (pa_pte pa + valid perm) ≡ pa
flags_of pa perm h u al = ground arith

low_test : (va : ℕ) → va < maxva → leb maxva va ≡ false
low_test va h = ground arith

-- the memory in which one page is mapped
abbrev pub mapped : ℕ → ℕ → ℕ → Memory → Memory
mapped p pa perm m = record m { pte = update m.pte p (pa_pte pa + valid perm) }

one_page :
    (va : ℕ)
    → va % page_size ≡ 0
    → va < maxva
    → (round_down va ≡ va) × (round_down ((va + page_size + 2 ^ 64 - 1) % 2 ^ 64) ≡ va)
one_page va al low = (omega arith, omega arith)

module _ (table va p pa perm : ℕ) (m : Memory) (low : va < maxva) (aligned : va % page_size ≡ 0)
    (there : find 2 m.pte table va ≡ some p) (unmapped : is_valid (m.pte p) ≡ false) where
  loop_one :
      (fuel : ℕ) → mappages_loop (suc fuel) table va va pa perm m ≡ ok true (mapped p pa perm m)
  unfolding mappages_loop walk
  loop_one fuel =
      rw (low_test va low, descend-there 2 table va p m there, unmapped, ==_self va) refl

  -- Mapping one page whose tables exist writes its entry and nothing else.
  mappages-one : mappages table va page_size pa perm m ≡ ok true (mapped p pa perm m)
  unfolding mappages
  mappages-one = rw ((one_page va aligned low).0, (one_page va aligned low).1) (loop_one (2 ^ 26))

  frame-mapped :
      (va' : ℕ)
      → Off p 2 m.pte table va'
      → find 2 m.pte table va' ≢ some p
      → frame (mapped p pa perm m).pte table va' ≡ frame m.pte table va'
  unfolding frame
  frame-mapped va' off other =
      rw (find-update p (pa_pte pa + valid perm) 2 m.pte table va' off)
        (elim (Option-cases (find 2 m.pte table va')) [
          | inl gone ↦ rw gone
          | inr (q, e) ↦ let ne : q ≢ p = λ d. other (e ∙ ap some d) in rw (e, ==_ne q p ne)
        ])

  frame-mapped_self :
      Off p 2 m.pte table va
      → perm < 2 ^ 10
      → perm / 2 ^ 4 % 2 ≡ 1
      → pa % page_size ≡ 0
      → frame (mapped p pa perm m).pte table va ≡ pa
  unfolding frame
  frame-mapped_self off h u al =
      rw
        (
          low_test va low,
          find-update p (pa_pte pa + valid perm) 2 m.pte table va off,
          there,
          ==_self p,
        )
        (flags_of pa perm h u al)

-- Where the tables for the address of a page exist, its entry is not valid and is on the way to no
-- other, `mappages` of one page maps it: with flags that have PTE_U and a page that is aligned,
-- `walkaddr` then finds the page, and what it finds at any address with another entry, to which this
-- one is not on the way either, is as before.
pub mappages-walkaddr :
    (table va p pa perm : ℕ) (m : Memory)
    → va < maxva
    → va % page_size ≡ 0
    → find 2 m.pte table va ≡ some p
    → is_valid (m.pte p) ≡ false
    → Off p 2 m.pte table va
    → perm < 2 ^ 10
    → perm / 2 ^ 4 % 2 ≡ 1
    → pa % page_size ≡ 0
    → (m' : Memory) × (mappages table va page_size pa perm m ≡ ok true m')
      × (walkaddr table va m' ≡ ok pa m')
      × ((va' : ℕ)
          → Off p 2 m.pte table va'
          → find 2 m.pte table va' ≢ some p
          → walkaddr table va' m' ≡ ok (frame m.pte table va') m')
mappages-walkaddr table va p pa perm m low al there un off h u pal = (
  mapped p pa perm m,
  mappages-one table va p pa perm m low al there un,
  walkaddr_lem table va (mapped p pa perm m)
      ∙ ap (λ r. ok r (mapped p pa perm m))
          (frame-mapped_self table va p pa perm m low al there un off h u pal),
  λ va' off' ne.
      walkaddr_lem table va' (mapped p pa perm m)
      ∙ ap (λ r. ok r (mapped p pa perm m))
          (frame-mapped table va p pa perm m low al there un va' off' ne),
)
