-- ===== src/Vm/Copy.antt =====
-- `copyout`, `copyin` and `copyinstr` of kernel/vm.c. Kernel addresses are physical addresses.
use os2025_assignment.Base.{
  ℕ, zero, suc, ◌+◌, ◌-◌, ◌%◌, Bool, true, false, ◌==◌, if◌then◌else◌, update, min,
}
use os2025_assignment.Machine.{Cmd, pure, gets, modify, ◌>>=◌, ◌>>◌}
use os2025_assignment.Kalloc.{page_size}
use os2025_assignment.Vm.{Memory, round_down, walkaddr}
use os2025_assignment.Vm.Space.{move_bytes}

-- the bytes to copy in one round
abbrev pub chunk : ℕ → ℕ → ℕ
chunk va len = min (page_size - va % page_size) len

-- A round copies a byte at least, so that `len` rounds are enough. `false` is the result -1.
unfoldable pub copyout_loop : ℕ → ℕ → ℕ → ℕ → ℕ → Cmd Memory Bool
copyout_loop zero pagetable dstva src len = pure true
copyout_loop (suc fuel) pagetable dstva src len = if len == 0 then pure true else do
  pa0 ← walkaddr pagetable (round_down dstva)
  if pa0 == 0 then pure false else do
    modify (move_bytes (pa0 + (dstva - round_down dstva)) src (chunk dstva len))
    copyout_loop fuel pagetable (round_down dstva + page_size) (src + chunk dstva len)
        (len - chunk dstva len)

unfoldable pub copyout : ℕ → ℕ → ℕ → ℕ → Cmd Memory Bool
copyout pagetable dstva src len = copyout_loop len pagetable dstva src len

unfoldable pub copyin_loop : ℕ → ℕ → ℕ → ℕ → ℕ → Cmd Memory Bool
copyin_loop zero pagetable dst srcva len = pure true
copyin_loop (suc fuel) pagetable dst srcva len = if len == 0 then pure true else do
  pa0 ← walkaddr pagetable (round_down srcva)
  if pa0 == 0 then pure false else do
    modify (move_bytes dst (pa0 + (srcva - round_down srcva)) (chunk srcva len))
    copyin_loop fuel pagetable (dst + chunk srcva len) (round_down srcva + page_size)
        (len - chunk srcva len)

unfoldable pub copyin : ℕ → ℕ → ℕ → ℕ → Cmd Memory Bool
copyin pagetable dst srcva len = copyin_loop len pagetable dst srcva len

-- The inner loop of `copyinstr`, with `n` bytes left from `p` on: whether it has met the zero.
unfoldable pub copy_string : ℕ → ℕ → ℕ → Cmd Memory Bool
copy_string zero p dst = pure false
copy_string (suc n) p dst = do
  c ← gets λ m. m.kmem.mem p
  modify λ m. record m { kmem = record m.kmem { mem = update m.kmem.mem dst c } }
  if c == 0 then pure true else copy_string n (p + 1) (dst + 1)

unfoldable pub copyinstr_loop : ℕ → ℕ → ℕ → ℕ → ℕ → Cmd Memory Bool
copyinstr_loop zero pagetable dst srcva max = pure false
copyinstr_loop (suc fuel) pagetable dst srcva max = if max == 0 then pure false else do
  pa0 ← walkaddr pagetable (round_down srcva)
  if pa0 == 0 then pure false else do
    got_null ← copy_string (chunk srcva max) (pa0 + (srcva - round_down srcva)) dst
    if got_null
        then pure true
        else copyinstr_loop fuel pagetable (dst + chunk srcva max) (round_down srcva + page_size)
            (max - chunk srcva max)

unfoldable pub copyinstr : ℕ → ℕ → ℕ → ℕ → Cmd Memory Bool
copyinstr pagetable dst srcva max = copyinstr_loop max pagetable dst srcva max
