-- ===== src/Kalloc.antt =====
-- kernel/kalloc.c: the allocator of physical pages. `mem` holds the bytes of memory; the word
-- `r->next` of a free page is kept apart, in `next`. `kernel_end` is the address that the linker
-- gives to `end`.
pub mod FreeList
mod Checks
use os2025_assignment.Base.{
  ℕ, zero, suc, ◌+◌, ◌-◌, ◌*◌, ◌/◌, ◌%◌, Bool, ◌||◌, Option, none, some, ltb, leb, ◌==◌, ◌/=◌,
  if◌then◌else◌, update,
}
use os2025_assignment.Machine.{Cmd, Void, ok, panic, fail, and_then, ◌>>=◌, ◌>>◌}
use os2025_assignment.Str.{Bytes, memset}

abbrev pub page_size : ℕ
page_size = 4096

-- KERNBASE + 128 * 1024 * 1024
abbrev pub phystop : ℕ
phystop = 0x88000000

-- PGROUNDUP and PGROUNDDOWN
abbrev pub round_up : ℕ → ℕ
round_up a = (a + page_size - 1) / page_size * page_size

pub record Kmem : Type 0 where
  pub freelist : ℕ
  pub next : ℕ → ℕ
  pub mem : Bytes

-- The lock is held inside both functions, so that each is one step.
unfoldable pub kalloc : Kmem → ℕ × Kmem
kalloc k =
    let r = k.freelist in
    if r == 0 then (0, k) else (
      r,
      record k {
        freelist = k.next r;
        next = update k.next r 0x0505050505050505;
        mem = memset r 5 page_size k.mem;
      },
    )

module _ (kernel_end : ℕ) where
  unfoldable pub kfree : ℕ → Cmd Kmem Void
  kfree pa k =
      if (pa % page_size /= 0) || (ltb pa kernel_end || leb phystop pa)
      then fail k
      else ok tt (record k {
        mem = memset pa 1 page_size k.mem;
        next = update k.next pa k.freelist;
        freelist = pa;
      })

  -- the loop from the page `p` on, as far as `fuel` reaches
  unfoldable pub freerange_loop : ℕ → ℕ → ℕ → Cmd Kmem Void
  freerange_loop zero p pa_end = fail
  freerange_loop (suc fuel) p pa_end =
      if leb (p + page_size) pa_end
      then (do kfree p; freerange_loop fuel (p + page_size) pa_end)
      else ok tt

  -- One round more than there are pages below the end is enough.
  unfoldable pub freerange : ℕ → ℕ → Cmd Kmem Void
  freerange pa_start pa_end = freerange_loop (pa_end / page_size + 1) (round_up pa_start) pa_end

  unfoldable pub kinit : Cmd Kmem Void
  kinit = freerange kernel_end phystop
