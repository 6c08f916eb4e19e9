-- ===== src/Kalloc/FreeList.antt =====
-- The list of free pages that starts at `kmem.freelist`.
use os2025_assignment.Base.{
  ℕ, zero, suc, ◌+◌, ◌-◌, ◌/◌, ◌%◌, ◌≤◌, ◌<◌, ◌≡◌, refl, ◌≢◌, true, false, ◌||◌, List, [], ◌∷◌,
  arith, sym, ltb, leb, ◌/=◌, ==_self, ==_ne, if◌then◌else◌, update, within,
}
use os2025_assignment.Machine.{ok, panic}
use os2025_assignment.Str.{memset}
use os2025_assignment.Str.Move.{memset_lem}
use os2025_assignment.Kalloc.{
  Kmem, page_size, phystop, round_up, kalloc, kfree, freerange_loop, freerange, kinit,
}

-- `p` is not in the list
abbrev pub Absent : ℕ → List ℕ → Type 0
Absent p [] = Unit
Absent p (q ∷ qs) = (p ≢ q) × Absent p qs

-- The `next` words lead from `p` through the distinct pages of the list to NULL.
abbrev pub Chain : (ℕ → ℕ) → ℕ → List ℕ → Type 0
Chain next p [] = p ≡ 0
Chain next p (q ∷ qs) = (p ≡ q) × (q ≢ 0) × Absent q qs × Chain next (next q) qs

-- the free pages of the allocator, the next one to be handed out first
abbrev pub IsFree : Kmem → List ℕ → Type 0
IsFree k ps = Chain k.next k.freelist ps

-- a write to a page that is not in the list
Chain-update :
    (next : ℕ → ℕ) (p q v : ℕ) (ps : List ℕ)
    → Absent q ps
    → Chain next p ps
    → Chain (update next q v) p ps
Chain-update next p q v [] a c = c
Chain-update next p q v (r ∷ ps) a c =
    (c.0, c.1, c.2, rw (==_ne r q (λ e. a.0 (sym e))) (Chain-update next (next r) q v ps a.1 c.3))

-- With no free page `kalloc` returns 0 and changes nothing.
pub kalloc-nil : (k : Kmem) → IsFree k [] → kalloc k ≡ (0, k)
unfolding kalloc
kalloc-nil k c = ground arith

-- Otherwise `kalloc` hands out the first free page, which is then no longer free, and leaves the
-- others free; the page is filled with 5, and no byte outside it changes.
pub kalloc-cons :
    (k : Kmem) (p : ℕ) (ps : List ℕ)
    → IsFree k (p ∷ ps)
    → ((kalloc k).0 ≡ p)
      × IsFree (kalloc k).1 ps
      × Absent p ps
      × ((a : ℕ) → (kalloc k).1.mem a ≡ (if within p page_size a then 5 else k.mem a))
unfolding kalloc
kalloc-cons k p ps c =
    rw (c.0, ==_ne p 0 c.1)
      (
        refl,
        Chain-update k.next (k.next p) p 0x0505050505050505 ps c.2 c.3,
        c.2,
        λ a. memset_lem p 5 page_size k.mem a,
      )

-- every page of the list is below `p`
abbrev pub Below : ℕ → List ℕ → Type 0
Below p [] = Unit
Below p (q ∷ qs) = (q < p) × Below p qs

Absent-Below : (p : ℕ) (qs : List ℕ) → Below p qs → Absent p qs
Absent-Below p [] h = tt
Absent-Below p (q ∷ qs) h = (omega arith, Absent-Below p qs h.1)

Below-mono : (p p' : ℕ) (qs : List ℕ) → p ≤ p' → Below p qs → Below p' qs
Below-mono p p' [] le h = tt
Below-mono p p' (q ∷ qs) le h = (omega arith, Below-mono p p' qs le h.1)

-- the pages that start at `p`, `p + page_size`, ..., `n` in number, put in front of `ps` in turn
unfoldable pub stack_pages : ℕ → ℕ → List ℕ → List ℕ
stack_pages zero p ps = ps
stack_pages (suc n) p ps = stack_pages n (p + page_size) (p ∷ ps)

le→leb : (a b : ℕ) → a ≤ b → leb a b ≡ true
le→leb a b h = ground arith

no_room : (p pa_end : ℕ) → 0 ≡ (pa_end - p) / page_size → leb (p + page_size) pa_end ≡ false
no_room p pa_end e = ground arith

module _ (kernel_end : ℕ) where
  -- the pages that `kfree` accepts
  abbrev pub IsPage : ℕ → Type 0
  IsPage p = (p % page_size ≡ 0) × (kernel_end ≤ p) × (p < phystop)

  -- `kfree` panics on an address that is no page of memory above the kernel.
  pub kfree-panic : (pa : ℕ) (k : Kmem) → ¬ IsPage pa → kfree kernel_end pa k ≡ panic
  unfolding kfree
  kfree-panic pa k h = ground (arith, h)

  accepts :
      (p : ℕ) → IsPage p → ((p % page_size /= 0) || (ltb p kernel_end || leb phystop p)) ≡ false
  accepts p h = ground arith

  -- the state after `kfree`
  abbrev pub with_page : ℕ → Kmem → Kmem
  with_page p k = record k {
    mem = memset p 1 page_size k.mem;
    next = update k.next p k.freelist;
    freelist = p;
  }

  -- `kfree` puts a page that is not free in front of the free pages.
  pub kfree-cons :
      (k : Kmem) (p : ℕ) (ps : List ℕ)
      → IsFree k ps
      → IsPage p
      → p ≢ 0
      → Absent p ps
      → (kfree kernel_end p k ≡ ok tt (with_page p k)) × IsFree (with_page p k) (p ∷ ps)
  unfolding kfree
  kfree-cons k p ps c pg ne a = (
    rw (accepts p pg),
    (refl, ne, a, rw (==_self p) (Chain-update k.next k.freelist p k.freelist ps a c)),
  )

  freerange_loop-IsFree :
      (fuel n p pa_end : ℕ) (k : Kmem) (ps : List ℕ)
      → IsFree k ps
      → Below p ps
      → p ≢ 0
      → p % page_size ≡ 0
      → kernel_end ≤ p
      → pa_end ≤ phystop
      → n ≡ (pa_end - p) / page_size
      → n < fuel
      → (k' : Kmem) × (freerange_loop kernel_end fuel p pa_end k ≡ ok tt k')
        × IsFree k' (stack_pages n p ps)
  unfolding freerange_loop stack_pages
  freerange_loop-IsFree zero n p pa_end k ps c b ne al lo hi e h = absurd (omega arith)
  freerange_loop-IsFree (suc fuel) zero p pa_end k ps c b ne al lo hi e h =
      (k, rw (no_room p pa_end e), c)
  freerange_loop-IsFree (suc fuel) (suc n) p pa_end k ps c b ne al lo hi e h =
      let room : p + page_size ≤ pa_end = omega arith in
      let freed = kfree-cons k p ps c (al, lo, omega arith) ne (Absent-Below p ps b) in
      let rest =
        freerange_loop-IsFree fuel n (p + page_size) pa_end (with_page p k) (p ∷ ps) freed.1
          (omega arith, Below-mono p (p + page_size) ps (omega arith) b) (omega arith) (omega arith)
          (omega arith) hi (omega arith) (omega arith) in
      (rest.0, rw (le→leb (p + page_size) pa_end room, freed.0) (rest.1), rest.2)

  -- `kinit` ends, does not panic, and leaves free every whole page between the kernel's end and
  -- PHYSTOP, each once.
  pub kinit-IsFree :
      (k : Kmem)
      → 0 < kernel_end
      → kernel_end ≤ phystop
      → k.freelist ≡ 0
      → (k' : Kmem) × (kinit kernel_end k ≡ ok tt k')
        × IsFree k'
            (stack_pages ((phystop - round_up kernel_end) / page_size) (round_up kernel_end) [])
  unfolding kinit freerange
  kinit-IsFree k pos fits e =
      freerange_loop-IsFree (phystop / page_size + 1) ((phystop - round_up kernel_end) / page_size)
        (round_up kernel_end) phystop k [] e tt (omega arith) (omega arith) (omega arith)
        (omega arith) refl (omega arith)
