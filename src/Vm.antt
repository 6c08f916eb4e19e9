-- ===== src/Vm.antt =====
-- kernel/vm.c: the page tables of Sv39. `pte` holds the words of page-table pages by their address;
-- the bytes of memory and the free pages are those of Kalloc.antt. `kernel_end` is the address that
-- the linker gives to `end`. The flags of a page are a number below 1024.
pub mod Space
pub mod Copy
pub mod Walk
pub mod Bytes
pub mod Out
mod Checks
use os2025_assignment.Base.{
  ℕ, zero, suc, ◌+◌, ◌-◌, ◌*◌, ◌/◌, ◌%◌, ◌^◌, Bool, true, false, not, ◌&&◌, ◌||◌, Option, none,
  some, ltb, leb, ◌==◌, ◌/=◌, if◌then◌else◌, update, within,
}
use os2025_assignment.Machine.{
  Cmd, Void, Run, ok, panic, pure, fail, gets, modify, when, ◌>>=◌, ◌>>◌, and_then,
}
use os2025_assignment.Str.{memset}
use os2025_assignment.Kalloc.{Kmem, kalloc, kfree, page_size}

pub record Memory : Type 0 where
  pub kmem : Kmem
  pub pte : ℕ → ℕ

-- 1 << (9 + 9 + 9 + 12 - 1)
abbrev pub maxva : ℕ
maxva = 2 ^ 38

abbrev pub round_down : ℕ → ℕ
round_down a = a / page_size * page_size

-- PTE2PA and PA2PTE
abbrev pub pte_pa : ℕ → ℕ
pte_pa pte = pte / 2 ^ 10 * 2 ^ 12

abbrev pub pa_pte : ℕ → ℕ
pa_pte pa = pa / 2 ^ 12 * 2 ^ 10

-- PTE_FLAGS, and the tests of PTE_V, PTE_U, and PTE_R|PTE_W|PTE_X
abbrev pub pte_flags : ℕ → ℕ
pte_flags pte = pte % 2 ^ 10

abbrev pub is_valid : ℕ → Bool
is_valid pte = pte % 2 /= 0

abbrev pub is_user : ℕ → Bool
is_user pte = pte / 2 ^ 4 % 2 /= 0

abbrev pub is_leaf : ℕ → Bool
is_leaf pte = pte / 2 % 2 ^ 3 /= 0

-- `perm | PTE_V`
abbrev pub valid : ℕ → ℕ
valid perm = perm + (1 - perm % 2)

-- the address of the entry for `va` in a table of the level
abbrev pub entry : ℕ → ℕ → ℕ → ℕ
entry level table va = table + va / 2 ^ (12 + 9 * level) % 2 ^ 9 * 8

-- `kalloc` and `kfree` as calls of this file
unfoldable pub alloc_page : Cmd Memory ℕ
alloc_page m = let r = kalloc m.kmem in ok r.0 (record m { kmem = r.1 })

unfoldable pub free_page : ℕ → ℕ → Cmd Memory Void
free_page kernel_end pa m = elim (kfree kernel_end pa m.kmem) [
  | ok _ k ↦ ok tt (record m { kmem = k })
  | panic ↦ panic
]

-- `memset(page, 0, PGSIZE)`
abbrev pub zero_page : ℕ → Memory → Memory
zero_page page m = record m {
  kmem = record m.kmem { mem = memset page 0 page_size m.kmem.mem };
  pte = λ a. if within page page_size a then 0 else m.pte a;
}

abbrev pub set_pte : ℕ → ℕ → Cmd Memory Void
set_pte p v = modify λ m. record m { pte = update m.pte p v }

abbrev pub get_pte : ℕ → Cmd Memory ℕ
get_pte p = gets λ m. m.pte p

-- the loop of `walk`, from a table of the level down; a result of `none` is 0
unfoldable pub descend : ℕ → Bool → ℕ → ℕ → Cmd Memory (Option ℕ)
descend zero alloc table va = pure (some (entry 0 table va))
descend (suc level) alloc table va = do
  pte ← get_pte (entry (suc level) table va)
  if is_valid pte then descend level alloc (pte_pa pte) va else if not alloc then pure none else do
    page ← alloc_page
    if page == 0 then pure none else do
      modify (zero_page page)
      set_pte (entry (suc level) table va) (pa_pte page + 1)
      descend level alloc page va

unfoldable pub walk : ℕ → ℕ → Bool → Cmd Memory (Option ℕ)
walk pagetable va alloc = if leb maxva va then fail else descend 2 alloc pagetable va

unfoldable pub walkaddr : ℕ → ℕ → Cmd Memory ℕ
walkaddr pagetable va = if leb maxva va then pure 0 else do
  found ← walk pagetable va false
  elim found [
    | none ↦ pure 0
    | some p ↦ do
      pte ← get_pte p
      if not (is_valid pte) then pure 0 else if not (is_user pte) then pure 0 else pure (pte_pa pte)
  ]

-- The loop of `mappages`, which ends at the page `last`. `false` is the result -1.
unfoldable pub mappages_loop : ℕ → ℕ → ℕ → ℕ → ℕ → ℕ → Cmd Memory Bool
mappages_loop zero pagetable a last pa perm = fail
mappages_loop (suc fuel) pagetable a last pa perm = do
  found ← walk pagetable a true
  elim found [
    | none ↦ pure false
    | some p ↦ do
      pte ← get_pte p
      when (is_valid pte) fail
      set_pte p (pa_pte pa + valid perm)
      if a == last
          then pure true
          else mappages_loop fuel pagetable (a + page_size) last (pa + page_size) perm
  ]

-- There are 2^26 pages below `maxva`, and at a page above it `walk` panics.
unfoldable pub mappages : ℕ → ℕ → ℕ → ℕ → ℕ → Cmd Memory Bool
mappages pagetable va size pa perm =
    if size == 0
    then fail
    else mappages_loop (2 ^ 26 + 1) pagetable (round_down va)
        (round_down ((va + size + 2 ^ 64 - 1) % 2 ^ 64)) pa perm

unfoldable pub kvmmap : ℕ → ℕ → ℕ → ℕ → ℕ → Cmd Memory Void
kvmmap kpgtbl va pa sz perm = do mapped ← mappages kpgtbl va sz pa perm; when (not mapped) fail
