-- ===== src/Kalloc/Checks.antt =====
-- The theorems about kernel/kalloc.c on a machine whose kernel ends two pages below PHYSTOP.
use os2025_assignment.Base.{ℕ, ◌-◌, ◌/◌, ◌≡◌, refl, [], ◌∷◌, arith}
use os2025_assignment.Machine.{ok}
use os2025_assignment.Kalloc.{Kmem, page_size, phystop, round_up, kalloc, kinit}
use os2025_assignment.Kalloc.FreeList.{IsFree, stack_pages, kalloc-nil, kinit-IsFree}

abbrev kernel_end : ℕ
kernel_end = 0x87FFDFF0

abbrev none_free : Kmem
none_free = record { freelist = 0; next = λ _. 0; mem = λ _. 0 }

abbrev one_free : Kmem
one_free = record { freelist = 0x87FFE000; next = λ _. 0; mem = λ _. 0 }

kalloc-nil_example : kalloc none_free ≡ (0, none_free)
kalloc-nil_example = kalloc-nil none_free refl

kinit-IsFree_example :
    (k' : Kmem) × (kinit kernel_end none_free ≡ ok tt k')
    × IsFree k' (stack_pages ((phystop - round_up kernel_end) / page_size) (round_up kernel_end) [])
kinit-IsFree_example = kinit-IsFree kernel_end none_free (omega arith) (omega arith) refl

two_pages :
    stack_pages ((phystop - round_up kernel_end) / page_size) (round_up kernel_end) []
    ≡ 0x87FFF000 ∷ 0x87FFE000 ∷ []
unfolding stack_pages
two_pages = refl
