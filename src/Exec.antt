-- ===== src/Exec.antt =====
-- kernel/exec.c, with `proc_pagetable` and `proc_freepagetable` of kernel/proc.c, on the state of the
-- calling process (Sysfile.antt) whose world is the memory of Vm.antt. `argv` is the list of the
-- kernel addresses of the arguments, which are strings in pages of their own; `ustack` is the
-- address of the array of that name on the kernel stack.
pub mod Load
pub mod Push
pub mod Args
pub mod Ends
mod Checks
use os2025_assignment.Base.{
  ℕ, zero, suc, ◌+◌, ◌-◌, ◌*◌, ◌/◌, ◌%◌, ◌^◌, min, Bool, true, false, not, ◌||◌, Option, none, some,
  List, [], ◌∷◌, ltb, leb, ◌==◌, ◌/=◌, if◌then◌else◌, length, get_or,
}
use os2025_assignment.Machine.{
  Cmd, Run, Void, ok, panic, pure, fail, gets, modify, when, ◌>>=◌, ◌>>◌,
}
use os2025_assignment.Str.{Bytes, strlen, safestrcpy}
use os2025_assignment.Kalloc.{page_size}
use os2025_assignment.Vm.{Memory, maxva, mappages}
use os2025_assignment.Vm.Space.{
  pte_r, pte_w, pte_x, uvmcreate, uvmclear, uvmunmap, uvmalloc, uvmfree,
}
use os2025_assignment.Vm.Copy.{copyout}
use os2025_assignment.Fs.Content.{readi}
use os2025_assignment.Fs.Inodes.{ilock, iunlockput}
use os2025_assignment.Fs.Dir.{namei}
use os2025_assignment.Sysfile.{Sys, begin_op, end_op, in_fs}

-- what `exec` replaces in the process and its trapframe
pub record Image : Type 0 where
  pub pagetable : ℕ
  pub sz : ℕ
  pub a1 : ℕ
  pub epc : ℕ
  pub sp : ℕ
  pub name : Bytes

abbrev pub maxarg : ℕ
maxarg = 32

abbrev pub trampoline : ℕ
trampoline = maxva - page_size

abbrev pub trapframe : ℕ
trapframe = trampoline - page_size

-- ELF_MAGIC, sizeof(struct elfhdr) and sizeof(struct proghdr)
abbrev pub elf_magic : ℕ
elf_magic = 1179403647

abbrev pub elf_size : ℕ
elf_size = 64

abbrev pub ph_size : ℕ
ph_size = 56

-- the number in the `n` bytes from `at` on
unfoldable pub field : List ℕ → ℕ → ℕ → ℕ
field bytes at zero = 0
field bytes at (suc n) = get_or bytes at 0 + 2 ^ 8 * field bytes (at + 1) n

abbrev pub is_read : ℕ → Option ℕ → Bool
is_read n none = false
is_read n (some m) = m == n

unfoldable pub flags2perm : ℕ → ℕ
flags2perm flags = (if flags % 2 == 1 then pte_x else 0) + (if flags / 2 % 2 == 1 then pte_w else 0)

-- what a run on the memory leaves
abbrev pub with_mem : {A : Type 0} → Sys Memory → Run Memory A → Run (Sys Memory) A
with_mem s panic = panic
with_mem s (ok a m) = ok a (record s { world = m })

abbrev pub in_mem : {A : Type 0} → Cmd Memory A → Cmd (Sys Memory) A
in_mem m s = with_mem s (m s.world)

-- bytes that are stored from the address `a` on
abbrev pub put_bytes : ℕ → List ℕ → Memory → Memory
put_bytes a bytes m = record m {
  kmem = record m.kmem {
    mem = λ x. if ltb x a || leb (a + length bytes) x then m.kmem.mem x else get_or bytes (x - a) 0;
  };
}

-- the bytes of a `uint64`
unfoldable pub word_bytes : ℕ → ℕ → List ℕ
word_bytes zero v = []
word_bytes (suc n) v = v % 2 ^ 8 ∷ word_bytes n (v / 2 ^ 8)

-- an argument without a zero byte in its page panics
unfoldable pub arg_length : ℕ → Cmd Memory ℕ
arg_length a m = elim (strlen page_size (λ i. m.kmem.mem (a + i))) [
  | none ↦ panic
  | some n ↦ ok n m
]

-- `sp -= n; sp -= sp % 16` on a uint64
abbrev pub push_down : ℕ → ℕ → ℕ
push_down sp n = let sp' = (sp + 2 ^ 64 - n) % 2 ^ 64 in sp' - sp' % 16

module _ (ustack : ℕ) where
  abbrev pub put_arg : ℕ → ℕ → Cmd Memory Void
  put_arg i v = modify (put_bytes (ustack + 8 * i) (word_bytes 8 v))

  -- the loop over the arguments: `sp` and `argc` behind it
  unfoldable pub push_args : ℕ → ℕ → List ℕ → ℕ → ℕ → Cmd Memory (Option (ℕ × ℕ))
  push_args pagetable stackbase [] argc sp = pure (some (sp, argc))
  push_args pagetable stackbase (arg ∷ argv) argc sp = if leb maxarg argc then pure none else do
    len ← arg_length arg
    if ltb (push_down sp (len + 1)) stackbase then pure none else do
      copied ← copyout pagetable (push_down sp (len + 1)) arg (len + 1)
      if not copied then pure none else do
        put_arg argc (push_down sp (len + 1))
        push_args pagetable stackbase argv (argc + 1) (push_down sp (len + 1))

  -- the array of the pointers, below the arguments
  unfoldable pub push_argv : ℕ → ℕ → ℕ × ℕ → Cmd Memory (Option (ℕ × ℕ))
  push_argv pagetable stackbase (sp, argc) = do
    put_arg argc 0
    if ltb (push_down sp ((argc + 1) * 8)) stackbase then pure none else do
      copied ← copyout pagetable (push_down sp ((argc + 1) * 8)) ustack ((argc + 1) * 8)
      if not copied then pure none else pure (some (push_down sp ((argc + 1) * 8), argc))

  -- the stack below `sz`: its pointer and `argc`
  unfoldable pub push_stack : ℕ → ℕ → List ℕ → Cmd Memory (Option (ℕ × ℕ))
  push_stack pagetable sz argv = do
    pushed ← push_args pagetable (sz - page_size) argv 0 sz
    elim pushed [ none ↦ pure none | some p ↦ push_argv pagetable (sz - page_size) p ]

-- the last part of a path
unfoldable pub last_name : List ℕ → List ℕ → List ℕ
last_name [] last = last
last_name (c ∷ path) last = last_name path (if c == b'/' then path else last)

module _ (kernel_end : ℕ) where
  -- `code` is the address of the trampoline, `frame` that of the process's trapframe.
  unfoldable pub proc_pagetable : ℕ → ℕ → Cmd Memory ℕ
  proc_pagetable code frame = do
    pagetable ← uvmcreate
    if pagetable == 0 then pure 0 else do
      mapped ← mappages pagetable trampoline page_size code (pte_r + pte_x)
      if not mapped then (do uvmfree kernel_end pagetable 0; pure 0) else do
        mapped' ← mappages pagetable trapframe page_size frame (pte_r + pte_w)
        if mapped' then pure pagetable else do
          uvmunmap kernel_end pagetable trampoline 1 false
          uvmfree kernel_end pagetable 0
          pure 0

  unfoldable pub proc_freepagetable : ℕ → ℕ → Cmd Memory Void
  proc_freepagetable pagetable sz = do
    uvmunmap kernel_end pagetable trampoline 1 false
    uvmunmap kernel_end pagetable trapframe 1 false
    uvmfree kernel_end pagetable sz
