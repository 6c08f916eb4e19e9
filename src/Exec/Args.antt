-- ===== src/Exec/Args.antt =====
-- `sys_exec` of kernel/sysfile.c, with `fetchaddr` and `fetchstr` of kernel/syscall.c. `slot` is the
-- address of the variable `uarg` on the kernel stack. A path that `argstr` cannot fetch is `none`.
use os2025_assignment.Base.{
  ℕ, zero, suc, ◌+◌, ◌*◌, ◌%◌, ◌^◌, ◌<◌, ◌≡◌, inl, inr, Bool-cases, Bool, true, false, not, ◌||◌,
  Option, none, some, List, [], ◌∷◌, ltb, leb, ◌==◌, if◌then◌else◌, length, arith,
}
use mathlib.Core.Bool.{false≢true}
use os2025_assignment.Machine.{Cmd, Void, Run, ok, panic, pure, gets, and_then, ◌>>=◌, ◌>>◌}
use os2025_assignment.Str.{Bytes}
use os2025_assignment.Kalloc.{page_size}
use os2025_assignment.Vm.{Memory, alloc_page, free_page}
use os2025_assignment.Vm.Copy.{copyin, copyinstr}
use os2025_assignment.Sysfile.{Sys}
use os2025_assignment.Exec.{Image, maxarg, in_mem, arg_length}
use os2025_assignment.Exec.Load.{exec}
use os2025_assignment.Exec.Push.{Yields, panics, yields}

-- the word of `n` bytes at an address
unfoldable pub word_at : ℕ → ℕ → Memory → ℕ
word_at zero a m = 0
word_at (suc n) a m = m.kmem.mem a + 2 ^ 8 * word_at n (a + 1) m

unfoldable pub fetchaddr : ℕ → Image → ℕ → Cmd Memory (Option ℕ)
fetchaddr slot p addr = if leb p.sz addr || ltb p.sz ((addr + 8) % 2 ^ 64) then pure none else do
  copied ← copyin p.pagetable slot addr 8
  if not copied then pure none else do v ← gets (word_at 8 slot); pure (some v)

unfoldable pub fetchstr : Image → ℕ → ℕ → ℕ → Cmd Memory (Option ℕ)
fetchstr p addr buf max = do
  copied ← copyinstr p.pagetable buf addr max
  if not copied then pure none else do n ← arg_length buf; pure (some n)

-- The loop over `uargv` from the index `i` on: whether it has met the null pointer, and the pages
-- that it has allocated. It ends in the round for `maxarg`, so that as many rounds and one are enough.
unfoldable pub fetch_args : ℕ → Image → ℕ → ℕ → ℕ → Cmd Memory (Bool × List ℕ)
fetch_args slot p uargv zero i = pure (false, [])
fetch_args slot p uargv (suc n) i = if leb maxarg i then pure (false, []) else do
  arg ← fetchaddr slot p ((uargv + 8 * i) % 2 ^ 64)
  elim arg [
    | none ↦ pure (false, [])
    | some uarg ↦ if uarg == 0 then pure (true, []) else do
      page ← alloc_page
      if page == 0 then pure (false, []) else do
        got ← fetchstr p uarg page page_size
        elim got [
          | none ↦ pure (false, page ∷ [])
          | some _ ↦ do rest ← fetch_args slot p uargv n (i + 1); pure (rest.0, page ∷ rest.1)
        ]
  ]

-- all of the loop
unfoldable pub fetch_argv : ℕ → Image → ℕ → Cmd Memory (Bool × List ℕ)
fetch_argv slot p uargv = fetch_args slot p uargv (maxarg + 1) 0

module _ (kernel_end : ℕ) where
  unfoldable pub free_args : List ℕ → Cmd Memory Void
  free_args [] = pure tt
  free_args (page ∷ pages) = do free_page kernel_end page; free_args pages

  module _ (junk : Bytes) (ustack code frame slot : ℕ) where
    unfoldable pub sys_exec : Image → Option (List ℕ) → ℕ → Cmd (Sys Memory) (Option (ℕ × Image))
    sys_exec p none uargv = pure none
    sys_exec p (some path) uargv = do
      args ← in_mem (fetch_argv slot p uargv)
      if not (args.0) then (do in_mem (free_args (args.1)); pure none) else do
        ret ← exec junk kernel_end ustack code frame p path (args.1)
        in_mem (free_args (args.1))
        pure ret

-- If the arguments from the index `i` on are complete, the null pointer behind them has an index
-- below `maxarg`.
abbrev pub Short : ℕ → Bool × List ℕ → Type 0
Short i r = r.0 ≡ true → i + length (r.1) < maxarg

module _ {B : Type 0} (Q : B → Type 0) where
  run_step :
      {A : Type 0} (r : Run Memory A) (k : A → Cmd Memory B)
      → ((x : A) (m : Memory) → Yields Q (k x m))
      → Yields Q (and_then r k)
  run_step panic k h = panics
  run_step (ok x m) k h = h x m

  run_opt_step :
      {A : Type 0} (r : Run Memory (Option A)) (k : Option A → Cmd Memory B)
      → ((m : Memory) → Yields Q (k none m))
      → ((x : A) (m : Memory) → Yields Q (k (some x) m))
      → Yields Q (and_then r k)
  run_opt_step panic k h h' = panics
  run_opt_step (ok none m) k h h' = h m
  run_opt_step (ok (some x) m) k h h' = h' x m

  either_step :
      (t : Bool) (c c' : Cmd Memory B) (m : Memory)
      → Yields Q (c m)
      → Yields Q (c' m)
      → Yields Q ((if t then c else c') m)
  either_step true c c' m h h' = h
  either_step false c c' m h h' = h'

cut_off : (i : ℕ) (pages : List ℕ) (m : Memory) → Yields (Short i) (ok (false, pages) m)
cut_off i pages m = yields λ e. elim (false≢true e) [ ]

all_read : (i : ℕ) (m : Memory) → leb maxarg i ≡ false → Yields (Short i) (ok (true, []) m)
all_read i m h = yields λ e. ground (arith, h)

one_more :
    (i page : ℕ) (r : Run Memory (Bool × List ℕ))
    → Yields (Short (i + 1)) r
    → Yields (Short i) (and_then r (λ rest. pure (rest.0, page ∷ rest.1)))
one_more i page panic h = panics
one_more i page (ok rest m) (yields h) = yields λ e. let lt = h e in omega arith

-- the test of the loop
in_place :
    (i : ℕ) (k : Cmd Memory (Bool × List ℕ)) (m : Memory)
    → (leb maxarg i ≡ false → Yields (Short i) (k m))
    → Yields (Short i) ((if leb maxarg i then pure (false, []) else k) m)
in_place i k m h = elim (Bool-cases (leb maxarg i)) [
  | inl e ↦ rw e (cut_off i [] m)
  | inr e ↦ rw e (h e)
]

fetch_loop-Short :
    (slot : ℕ) (p : Image) (uargv n i : ℕ) (m : Memory)
    → Yields (Short i) (fetch_args slot p uargv n i m)
unfolding fetch_args
fetch_loop-Short slot p uargv zero i m = cut_off i [] m
fetch_loop-Short slot p uargv (suc n) i m = in_place i _ m λ e.
    search
      (
        run_opt_step,
        run_step,
        either_step,
        cut_off,
        all_read,
        one_more,
        fetch_loop-Short slot p uargv n,
      )
      depth 20

-- When the loop of `sys_exec` has met the null pointer behind the arguments, and no part of the
-- kernel panics, there are fewer than MAXARG of them, so that the null pointer has a place in
-- `argv`, an array of MAXARG.
pub fetch_argv-Short :
    (slot : ℕ) (p : Image) (uargv : ℕ) (m : Memory) → Yields (Short 0) (fetch_argv slot p uargv m)
unfolding fetch_argv
fetch_argv-Short slot p uargv m = fetch_loop-Short slot p uargv (maxarg + 1) 0 m
