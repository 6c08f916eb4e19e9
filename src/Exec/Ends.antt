-- ===== src/Exec/Ends.antt =====
-- `exec` of kernel/exec.c ends the operation that it begins.
use os2025_assignment.Base.{
  ℕ, zero, suc, ◌+◌, ◌≡◌, refl, Bool, true, false, Option, none, some, List, if◌then◌else◌,
}
use os2025_assignment.Machine.{Cmd, Run, ok, panic, pure, and_then}
use os2025_assignment.Str.{Bytes}
use os2025_assignment.Kalloc.{page_size}
use os2025_assignment.Vm.{Memory}
use os2025_assignment.Sysfile.{Sys}
use os2025_assignment.Sysfile.Balance.{Leaves, LeavesBy, panics, returns, call_step, balance}
use os2025_assignment.Exec.{Image, with_mem}
use os2025_assignment.Exec.Args.{sys_exec}
use os2025_assignment.Exec.Load.{
  load_loop, loadseg, load_segment, load_segments, bad_file, bad_segments, bad_stack, start_image,
  exec,
}

module _ {B : Type 0} (f : B → ℕ) where
  mem_step :
      {A : Type 0} (s : Sys Memory) (r : Run Memory A) (k : A → Cmd (Sys Memory) B)
      → ((x : A) (m : Memory) → LeavesBy f (k x (record s { world = m })))
      → LeavesBy f (and_then (with_mem s r) k)
  mem_step s panic k h = panics
  mem_step s (ok x m) k h = h x m

  mem_opt_step :
      {A : Type 0} (s : Sys Memory) (r : Run Memory (Option A)) (k : Option A → Cmd (Sys Memory) B)
      → ((m : Memory) → LeavesBy f (k none (record s { world = m })))
      → ((x : A) (m : Memory) → LeavesBy f (k (some x) (record s { world = m })))
      → LeavesBy f (and_then (with_mem s r) k)
  mem_opt_step s panic k h h' = panics
  mem_opt_step s (ok none m) k h h' = h m
  mem_opt_step s (ok (some x) m) k h h' = h' x m

panic_step : {W A : Type 0} (f : A → ℕ) → LeavesBy {W = W} f panic
panic_step f = panics

ruleset images = (balance, mem_opt_step, mem_step, panic_step)

load_loop-Leaves :
    (n pagetable va ip offset sz i b : ℕ) (s : Sys Memory)
    → s.ops ≡ b
    → Leaves b (load_loop n pagetable va ip offset sz i s)
unfolding load_loop
load_loop-Leaves zero pagetable va ip offset sz i b s e = returns e
load_loop-Leaves (suc n) pagetable va ip offset sz i b s e =
    search (images, load_loop-Leaves n pagetable va ip offset sz (i + page_size)) depth 20

loadseg-Leaves :
    (pagetable va ip offset sz : ℕ) (s : Sys Memory)
    → Leaves s.ops (loadseg pagetable va ip offset sz s)
unfolding loadseg
loadseg-Leaves pagetable va ip offset sz s =
    load_loop-Leaves _ pagetable va ip offset sz 0 s.ops s refl

loadseg_step :
    (b : ℕ) {B : Type 0} (f : B → ℕ) (pagetable va ip offset sz : ℕ) (s : Sys Memory)
    (k : Bool → Cmd (Sys Memory) B)
    → s.ops ≡ b
    → ((x : Bool) (s' : Sys Memory) → s'.ops ≡ b → LeavesBy f (k x s'))
    → LeavesBy f (and_then (loadseg pagetable va ip offset sz s) k)
loadseg_step b f pagetable va ip offset sz =
    call_step (loadseg pagetable va ip offset sz) (loadseg-Leaves pagetable va ip offset sz) b f

module _ (junk : Bytes) (kernel_end ustack code frame : ℕ) where
  load_segment-Leaves :
      (ip pagetable : ℕ) (ph : List ℕ) (sz : ℕ) (s : Sys Memory)
      → Leaves s.ops (load_segment junk kernel_end ustack code frame ip pagetable ph sz s)
  unfolding load_segment
  load_segment-Leaves ip pagetable ph sz s = search (images, loadseg_step s.ops) depth 30

  -- a header whose segment is not to be loaded is passed over
  segment_step :
      (b : ℕ) {B : Type 0} (f : B → ℕ) (t : Bool) (ip pagetable : ℕ) (ph : List ℕ) (sz : ℕ)
      (s : Sys Memory) (k : Bool × ℕ → Cmd (Sys Memory) B)
      → s.ops ≡ b
      → ((x : Bool × ℕ) (s' : Sys Memory) → s'.ops ≡ b → LeavesBy f (k x s'))
      → LeavesBy f (
          and_then
            ((if t
                then pure (true, sz)
                else load_segment junk kernel_end ustack code frame ip pagetable ph sz)
              s)
            k)
  segment_step b f true ip pagetable ph sz s k e h = h (true, sz) s e
  segment_step b f false ip pagetable ph sz s k e h =
      call_step (load_segment junk kernel_end ustack code frame ip pagetable ph sz)
        (load_segment-Leaves ip pagetable ph sz) b f s k e h

  load_segments-Leaves :
      (n ip pagetable off sz b : ℕ) (s : Sys Memory)
      → s.ops ≡ b
      → Leaves b (load_segments junk kernel_end ustack code frame n ip pagetable off sz s)
  unfolding load_segments
  load_segments-Leaves zero ip pagetable off sz b s e = returns e
  load_segments-Leaves (suc n) ip pagetable off sz b s e =
      search (images, segment_step b, load_segments-Leaves n ip pagetable) depth 30

  segments_step :
      (b : ℕ) {B : Type 0} (f : B → ℕ) (n ip pagetable off sz : ℕ) (s : Sys Memory)
      (k : Bool × ℕ → Cmd (Sys Memory) B)
      → s.ops ≡ b
      → ((x : Bool × ℕ) (s' : Sys Memory) → s'.ops ≡ b → LeavesBy f (k x s'))
      → LeavesBy f
          (and_then (load_segments junk kernel_end ustack code frame n ip pagetable off sz s) k)
  segments_step b f n ip pagetable off sz =
      call_step (load_segments junk kernel_end ustack code frame n ip pagetable off sz)
        (λ s. load_segments-Leaves n ip pagetable off sz s.ops s refl) b f

  bad_stack-Leaves :
      (pagetable sz b : ℕ) (s : Sys Memory)
      → s.ops ≡ b
      → Leaves b (bad_stack junk kernel_end ustack code frame pagetable sz s)
  unfolding bad_stack
  bad_stack-Leaves pagetable sz b s e = search images depth 12

  start_image-Leaves :
      (old : Image) (path argv : List ℕ) (entry pagetable sz b : ℕ) (s : Sys Memory)
      → s.ops ≡ b
      → Leaves b (start_image junk kernel_end ustack code frame old path argv entry pagetable sz s)
  unfolding start_image
  start_image-Leaves old path argv entry pagetable sz b s e =
      search (images, bad_stack-Leaves) depth 30

  -- `exec`, if it returns, has ended the operation that it begins, on every path through its errors.
  pub exec-Leaves :
      (old : Image) (path argv : List ℕ) (s : Sys Memory)
      → Leaves s.ops (exec junk kernel_end ustack code frame old path argv s)
  unfolding exec bad_file bad_segments
  exec-Leaves old path argv s =
      search (images, segments_step (s.ops + 1), start_image-Leaves old path argv) depth 60

  module _ (slot : ℕ) where
    exec_step :
        (b : ℕ) {B : Type 0} (f : B → ℕ) (old : Image) (path argv : List ℕ) (s : Sys Memory)
        (k : Option (ℕ × Image) → Cmd (Sys Memory) B)
        → s.ops ≡ b
        → ((x : Option (ℕ × Image)) (s' : Sys Memory) → s'.ops ≡ b → LeavesBy f (k x s'))
        → LeavesBy f (and_then (exec junk kernel_end ustack code frame old path argv s) k)
    exec_step b f old path argv =
        call_step (exec junk kernel_end ustack code frame old path argv) (exec-Leaves old path argv)
          b f

    -- `sys_exec`, if it returns, has ended the operation of the log that it begins, on every path
    -- through its errors and those of `exec`.
    pub sys_exec-Leaves :
        (old : Image) (path : Option (List ℕ)) (uargv : ℕ) (s : Sys Memory)
        → Leaves s.ops (sys_exec kernel_end junk ustack code frame slot old path uargv s)
    unfolding sys_exec
    sys_exec-Leaves old none uargv s = returns refl
    sys_exec-Leaves old (some path) uargv s = search (images, exec_step s.ops) depth 30
