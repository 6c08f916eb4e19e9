-- ===== src/Exec/Push.antt =====
-- The stack that `exec` of kernel/exec.c sets up.
use os2025_assignment.Base.{
  ℕ, ◌+◌, ◌-◌, ◌*◌, ◌%◌, ◌^◌, ◌≤◌, ◌<◌, ◌≡◌, refl, inl, inr, Bool, true, false, not, Option, none,
  some, Option-cases, List, [], ◌∷◌, ltb, leb, if◌then◌else◌, length, arith,
}
use os2025_assignment.Machine.{Cmd, Run, ok, panic, pure, and_then}
use os2025_assignment.Str.{strlen}
use os2025_assignment.Str.Copy.{run_length-le, strlen_lem}
use os2025_assignment.Kalloc.{page_size}
use os2025_assignment.Vm.{Memory}
use os2025_assignment.Vm.Copy.{copyout}
use os2025_assignment.Exec.{maxarg, arg_length, push_down, push_args, push_argv, push_stack}

-- The run panics, or `P` holds of what it returns.
pub data Yields {A : Type 0} (P : A → Type 0) : Run Memory A → Type 0 where
  panics : Yields P panic
  yields : {a : A} {m : Memory} → P a → Yields P (ok a m)

pub Yields-bind :
    {A B : Type 0} (P : A → Type 0) (Q : B → Type 0) (r : Run Memory A) (k : A → Cmd Memory B)
    → Yields P r
    → ((a : A) (m : Memory) → P a → Yields Q (k a m))
    → Yields Q (and_then r k)
Yields-bind P Q panic k h h' = panics
Yields-bind P Q (ok a m) k (yields p) h' = h' a m p

push_down_lem :
    (sp n : ℕ) → sp < 2 ^ 64 → n ≤ sp → (push_down sp n + n ≤ sp) × (push_down sp n % 16 ≡ 0)
push_down_lem sp n h le = (omega arith, omega arith)

measured-lt : (fuel n : ℕ) (s : ℕ → ℕ) → strlen fuel s ≡ some n → n < fuel
measured-lt fuel n s e = grind (arith, strlen_lem fuel s, run_length-le fuel 0 s)

-- what `push_args` says: nothing, or a stack pointer in the page below `sz` and the count
abbrev Pushed : ℕ → ℕ → Option (ℕ × ℕ) → Type 0
Pushed sz k none = Unit
Pushed sz k (some (sp, argc)) =
    (sz - page_size ≤ sp) × (sp ≤ sz) × (sp % 16 ≡ 0) × (argc ≡ k) × (argc ≤ maxarg)

-- what `push_stack` says: the same, with the array of pointers above the stack pointer
abbrev pub Stacked : ℕ → ℕ → Option (ℕ × ℕ) → Type 0
Stacked sz k none = Unit
Stacked sz k (some (sp, argc)) =
    (sz - page_size ≤ sp)
    × (sp + 8 * (argc + 1) ≤ sz)
    × (sp % 16 ≡ 0)
    × (argc ≡ k)
    × (argc ≤ maxarg)

not_below : (a b : ℕ) → ltb a b ≡ false → b ≤ a
not_below a b e = ground (arith, e)

below : (a b : ℕ) → leb a b ≡ false → b + 1 ≤ a
below a b e = ground (arith, e)

arg_length-Yields : (a : ℕ) (m : Memory) → Yields (λ n. n < page_size) (arg_length a m)
unfolding arg_length
arg_length-Yields a m = elim (Option-cases (strlen page_size (λ i. m.kmem.mem (a + i)))) [
  | inl e ↦ rw (arg_length, e) panics
  | inr (n, e) ↦ rw (arg_length, e) (yields (measured-lt page_size n _ e))
]

copyout-Yields :
    (pagetable dst src len : ℕ) (m : Memory) → Yields (λ _. Unit) (copyout pagetable dst src len m)
copyout-Yields pagetable dst src len m = any (copyout pagetable dst src len m)
  where
    any : (r : Run Memory Bool) → Yields (λ _. Unit) r
    any panic = panics
    any (ok b m) = yields tt

module _ (ustack pagetable sz : ℕ) (big : 2 * page_size ≤ sz) (small : sz < 2 ^ 64) where
  -- a test that ends the work, or the rest
  unless :
      {A : Type 0} (P : Option A → Type 0) (t : Bool) (k : Cmd Memory (Option A)) (m : Memory)
      → P none
      → (t ≡ false → Yields P (k m))
      → Yields P ((if t then pure none else k) m)
  unless P true k m n h = yields n
  unless P false k m n h = h refl

  push_args-Pushed :
      (k : ℕ) (argv : List ℕ) (argc sp : ℕ) (m : Memory)
      → argc + length argv ≡ k
      → Pushed sz argc (some (sp, argc))
      → Yields (Pushed sz k) (push_args ustack pagetable (sz - page_size) argv argc sp m)
  unfolding push_args
  push_args-Pushed k [] argc sp m e (lo, hi, al, _, le) = yields (lo, hi, al, omega arith, le)
  push_args-Pushed k (arg ∷ argv) argc sp m e (lo, hi, al, _, le) =
      unless (Pushed sz k) (leb maxarg argc) _ m tt λ few.
        Yields-bind _ _ (arg_length arg m) _ (arg_length-Yields arg m) λ len m1 short.
          unless _ (ltb (push_down sp (len + 1)) (sz - page_size)) _ m1 tt λ room.
            Yields-bind _ _ (copyout pagetable (push_down sp (len + 1)) arg (len + 1) m1) _
              (copyout-Yields pagetable (push_down sp (len + 1)) arg (len + 1) m1)
              λ copied m2 _. unless _ (not copied) _ m2 tt λ _.
                let (down, aligned) = push_down_lem sp (len + 1) (omega arith) (omega arith) in
                push_args-Pushed k argv (argc + 1) (push_down sp (len + 1)) _ (omega arith) (
                  not_below (push_down sp (len + 1)) (sz - page_size) room,
                  omega arith,
                  aligned,
                  refl,
                  below maxarg argc few,
                )

  push_argv-Stacked :
      (k : ℕ) (p : ℕ × ℕ) (m : Memory)
      → Pushed sz k (some p)
      → Yields (Stacked sz k) (push_argv ustack pagetable (sz - page_size) p m)
  unfolding push_argv
  push_argv-Stacked k (sp, argc) m (lo, hi, al, e, le) =
      let (down, aligned) = push_down_lem sp ((argc + 1) * 8) (omega arith) (omega arith) in
      unless (Stacked sz k) (ltb (push_down sp ((argc + 1) * 8)) (sz - page_size)) _ _ tt λ room.
        Yields-bind _ _
          (copyout pagetable (push_down sp ((argc + 1) * 8)) ustack ((argc + 1) * 8) _) _
          (copyout-Yields pagetable (push_down sp ((argc + 1) * 8)) ustack ((argc + 1) * 8) _)
          λ copied m2 _. unless _ (not copied) _ m2 tt λ _. yields (
            not_below (push_down sp ((argc + 1) * 8)) (sz - page_size) room,
            omega arith,
            aligned,
            e,
            le,
          )

  -- When `exec` lays out the stack below an aligned size of two pages at least, and no part of the
  -- kernel panics, either the arguments do not fit or cannot be copied, or the stack pointer is a
  -- multiple of 16 within the page below the size, the array of the pointers to the arguments lies
  -- between the two, and `argc` is the number of the arguments, at most MAXARG.
  pub push_stack-Stacked :
      (argv : List ℕ) (m : Memory)
      → sz % 16 ≡ 0
      → Yields (Stacked sz (length argv)) (push_stack ustack pagetable sz argv m)
  unfolding push_stack
  push_stack-Stacked argv m al =
      Yields-bind (Pushed sz (length argv)) _
        (push_args ustack pagetable (sz - page_size) argv 0 sz m) _
        (push_args-Pushed (length argv) argv 0 sz m (omega arith)
          (omega arith, omega arith, al, refl, omega arith))
        finish
    where
      finish :
          (r : Option (ℕ × ℕ)) (m' : Memory)
          → Pushed sz (length argv) r
          → Yields (Stacked sz (length argv)) (
              (elim r as (λ _. Cmd Memory (Option (ℕ × ℕ))) [
                | none ↦ pure none
                | some p ↦ push_argv ustack pagetable (sz - page_size) p
              ])
                m')
      finish none m' h = yields tt
      finish (some p) m' h = push_argv-Stacked (length argv) p m' h
