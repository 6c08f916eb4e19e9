-- ===== src/Vm/Space.antt =====
-- The part of kernel/vm.c that makes, grows, copies and frees the memory of a process. Sizes and
-- numbers of pages are so small that no address passes 2^64.
use os2025_assignment.Base.{
  ℕ, zero, suc, ◌+◌, ◌-◌, ◌*◌, ◌/◌, ◌%◌, Bool, true, false, not, ◌&&◌, none, some, ltb, leb, ◌==◌,
  ◌/=◌, if◌then◌else◌,
}
use os2025_assignment.Machine.{Cmd, Void, pure, fail, modify, when, ◌>>=◌, ◌>>◌}
use os2025_assignment.Str.{memmove}
use os2025_assignment.Kalloc.{page_size, round_up}
use os2025_assignment.Vm.{
  Memory, pte_pa, pte_flags, is_valid, is_user, is_leaf, alloc_page, free_page, zero_page, set_pte,
  get_pte, walk, mappages,
}

-- PTE_R, PTE_W, PTE_X and PTE_U
abbrev pub pte_r : ℕ
pte_r = 2

abbrev pub pte_w : ℕ
pte_w = 4

abbrev pub pte_x : ℕ
pte_x = 8

abbrev pub pte_u : ℕ
pte_u = 16

-- `memmove` in the bytes of memory
abbrev pub move_bytes : ℕ → ℕ → ℕ → Memory → Memory
move_bytes dst src n m = record m { kmem = record m.kmem { mem = memmove dst src n m.kmem.mem } }

unfoldable pub uvmcreate : Cmd Memory ℕ
uvmcreate = do
  pagetable ← alloc_page
  if pagetable == 0 then pure 0 else do modify (zero_page pagetable); pure pagetable

-- The results of `kalloc` and `mappages` are not looked at.
unfoldable pub uvmfirst : ℕ → ℕ → ℕ → Cmd Memory Void
uvmfirst pagetable src sz = if leb page_size sz then fail else do
  mem ← alloc_page
  modify (zero_page mem)
  _ ← mappages pagetable 0 page_size mem (pte_w + pte_r + pte_x + pte_u)
  modify (move_bytes mem src sz)

unfoldable pub uvmclear : ℕ → ℕ → Cmd Memory Void
uvmclear pagetable va = do
  found ← walk pagetable va false
  elim found [
    | none ↦ fail
    | some p ↦ do pte ← get_pte p; set_pte p (if is_user pte then pte - pte_u else pte)
  ]

module _ (kernel_end : ℕ) where
  -- the loop of `uvmunmap`, with `n` pages left from `a` on
  unfoldable pub unmap_loop : ℕ → ℕ → ℕ → Bool → Cmd Memory Void
  unmap_loop zero pagetable a do_free = pure tt
  unmap_loop (suc n) pagetable a do_free = do
    found ← walk pagetable a false
    elim found [
      | none ↦ fail
      | some p ↦ do
        pte ← get_pte p
        when (not (is_valid pte)) fail
        when (pte_flags pte == 1) fail
        when do_free (free_page kernel_end (pte_pa pte))
        set_pte p 0
        unmap_loop n pagetable (a + page_size) do_free
    ]

  unfoldable pub uvmunmap : ℕ → ℕ → ℕ → Bool → Cmd Memory Void
  uvmunmap pagetable va npages do_free =
      if va % page_size /= 0 then fail else unmap_loop npages pagetable va do_free

  unfoldable pub uvmdealloc : ℕ → ℕ → ℕ → Cmd Memory ℕ
  uvmdealloc pagetable oldsz newsz = if leb oldsz newsz then pure oldsz else do
    when (ltb (round_up newsz) (round_up oldsz))
        (uvmunmap pagetable (round_up newsz) ((round_up oldsz - round_up newsz) / page_size) true)
    pure newsz

  -- The loop of `uvmalloc`, with `n` pages left from `a` on; `base` is the rounded old size.
  unfoldable pub grow_loop : ℕ → ℕ → ℕ → ℕ → ℕ → ℕ → Cmd Memory ℕ
  grow_loop zero pagetable base a newsz xperm = pure newsz
  grow_loop (suc n) pagetable base a newsz xperm = do
    mem ← alloc_page
    if mem == 0 then (do _ ← uvmdealloc pagetable a base; pure 0) else do
      modify (zero_page mem)
      mapped ← mappages pagetable a page_size mem (pte_r + pte_u + xperm)
      if not mapped
          then (do free_page kernel_end mem; _ ← uvmdealloc pagetable a base; pure 0)
          else grow_loop n pagetable base (a + page_size) newsz xperm

  -- `xperm` is 0 or made of PTE_W and PTE_X.
  unfoldable pub uvmalloc : ℕ → ℕ → ℕ → ℕ → Cmd Memory ℕ
  uvmalloc pagetable oldsz newsz xperm =
      if ltb newsz oldsz
      then pure oldsz
      else grow_loop ((newsz + page_size - 1 - round_up oldsz) / page_size) pagetable
          (round_up oldsz) (round_up oldsz) newsz xperm

  -- The loop of `freewalk` over the entries of one table, with `n` left from the index `i` on;
  -- `free_child` frees the table that an entry points to.
  unfoldable pub free_entries : (ℕ → Cmd Memory Void) → ℕ → ℕ → ℕ → Cmd Memory Void
  free_entries free_child zero i pagetable = pure tt
  free_entries free_child (suc n) i pagetable = do
    pte ← get_pte (pagetable + i * 8)
    if is_valid pte && not (is_leaf pte)
        then (do free_child (pte_pa pte); set_pte (pagetable + i * 8) 0)
        else when (is_valid pte) fail
    free_entries free_child n (i + 1) pagetable

  -- `depth` is the number of levels of tables; deeper ones would be a table that is no table.
  unfoldable pub freewalk : ℕ → ℕ → Cmd Memory Void
  freewalk zero pagetable = fail
  freewalk (suc depth) pagetable = do
    free_entries (freewalk depth) 512 0 pagetable
    free_page kernel_end pagetable

  unfoldable pub uvmfree : ℕ → ℕ → Cmd Memory Void
  uvmfree pagetable sz = do
    when (ltb 0 sz) (uvmunmap pagetable 0 (round_up sz / page_size) true)
    freewalk 3 pagetable

  -- The loop of `uvmcopy`, with `n` pages left from `i` on. `false` is the result -1.
  unfoldable pub copy_loop : ℕ → ℕ → ℕ → ℕ → Cmd Memory Bool
  copy_loop zero old new i = pure true
  copy_loop (suc n) old new i = do
    found ← walk old i false
    elim found [
      | none ↦ fail
      | some p ↦ do
        pte ← get_pte p
        when (not (is_valid pte)) fail
        mem ← alloc_page
        if mem == 0 then (do uvmunmap new 0 (i / page_size) true; pure false) else do
          modify (move_bytes mem (pte_pa pte) page_size)
          mapped ← mappages new i page_size mem (pte_flags pte)
          if not mapped
              then (do free_page kernel_end mem; uvmunmap new 0 (i / page_size) true; pure false)
              else copy_loop n old new (i + page_size)
    ]

  unfoldable pub uvmcopy : ℕ → ℕ → ℕ → Cmd Memory Bool
  uvmcopy old new sz = copy_loop ((sz + page_size - 1) / page_size) old new 0
