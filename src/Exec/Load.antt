-- ===== src/Exec/Load.antt =====
-- `loadseg` and `exec` of kernel/exec.c. The header of the file and of a segment are the bytes that
-- `readi` gives. `old` is the image of the process before; its trapframe is at `frame`.
use os2025_assignment.Base.{
  ℕ, zero, suc, ◌+◌, ◌-◌, ◌*◌, ◌/◌, ◌%◌, ◌^◌, min, Bool, true, false, not, ◌||◌, Option, none, some,
  List, map, ltb, ◌==◌, ◌/=◌, if◌then◌else◌, get_or,
}
use os2025_assignment.Machine.{Cmd, pure, fail, gets, modify, ◌>>=◌, ◌>>◌}
use os2025_assignment.Str.{Bytes, safestrcpy}
use os2025_assignment.Kalloc.{page_size, round_up}
use os2025_assignment.Vm.{Memory, walkaddr}
use os2025_assignment.Vm.Space.{pte_w, uvmclear, uvmalloc}
use os2025_assignment.Fs.Content.{readi}
use os2025_assignment.Fs.Inodes.{ilock, iunlockput}
use os2025_assignment.Fs.Dir.{namei}
use os2025_assignment.Sysfile.{Sys, begin_op, end_op, in_fs}
use os2025_assignment.Exec.{
  Image, elf_magic, elf_size, ph_size, field, is_read, flags2perm, in_mem, put_bytes, push_stack,
  last_name, proc_pagetable, proc_freepagetable,
}

-- `readi` into kernel memory
abbrev pub read_file : ℕ → ℕ → ℕ → Cmd (Sys Memory) (Option ℕ × List ℕ)
read_file ip off n = in_fs (do r ← readi (λ _ _. true) ip 0 off n; pure (r.0, map (λ p. p.1) (r.1)))

-- The pages from `i` on, which are below `sz`: a segment of 4 GB, with which `i` would wrap around,
-- is more than the memory holds. `false` is -1.
unfoldable pub load_loop : ℕ → ℕ → ℕ → ℕ → ℕ → ℕ → ℕ → Cmd (Sys Memory) Bool
load_loop zero pagetable va ip offset sz i = pure true
load_loop (suc rounds) pagetable va ip offset sz i = do
  pa ← in_mem (walkaddr pagetable (va + i))
  if pa == 0 then fail else do
    read ← read_file ip ((offset + i) % 2 ^ 32) (min (sz - i) page_size)
    modify λ s. record s { world = put_bytes pa (read.1) s.world }
    if not (is_read (min (sz - i) page_size) (read.0))
        then pure false
        else load_loop rounds pagetable va ip offset sz (i + page_size)

unfoldable pub loadseg : ℕ → ℕ → ℕ → ℕ → ℕ → Cmd (Sys Memory) Bool
loadseg pagetable va ip offset sz =
    load_loop ((sz + page_size - 1) / page_size) pagetable va ip offset sz 0

module _ (junk : Bytes) (kernel_end ustack code frame : ℕ) where
  -- A segment that is to be loaded, into a process of `sz` bytes: whether it could be, and the size
  -- that the process has then.
  unfoldable pub load_segment : ℕ → ℕ → List ℕ → ℕ → Cmd (Sys Memory) (Bool × ℕ)
  load_segment ip pagetable ph sz =
      let vaddr = field ph 16 8 in
      let filesz = field ph 32 8 in
      let memsz = field ph 40 8 in
      if ltb memsz filesz
      then pure (false, sz)
      else if ltb ((vaddr + memsz) % 2 ^ 64) vaddr
      then pure (false, sz)
      else if vaddr % page_size /= 0
      then pure (false, sz)
      else do
        sz1 ← in_mem (uvmalloc kernel_end pagetable sz (vaddr + memsz) (flags2perm (field ph 4 4)))
        if sz1 == 0 then pure (false, sz) else do
          loaded ← loadseg pagetable vaddr ip (field ph 8 8 % 2 ^ 32) (filesz % 2 ^ 32)
          pure (loaded, sz1)

  -- the loop over the program headers, with `n` left from `off` on
  unfoldable pub load_segments : ℕ → ℕ → ℕ → ℕ → ℕ → Cmd (Sys Memory) (Bool × ℕ)
  load_segments zero ip pagetable off sz = pure (true, sz)
  load_segments (suc n) ip pagetable off sz = do
    ph ← read_file ip (off % 2 ^ 32) ph_size
    if not (is_read ph_size (ph.0)) then pure (false, sz) else do
      done ← if field (ph.1) 0 4 /= 1 then pure (true, sz) else load_segment ip pagetable (ph.1) sz
      if not (done.0) then pure done else load_segments n ip pagetable (off + ph_size) (done.1)

  -- the label `bad`, with the file open and without a page table, with both, and without the file
  unfoldable pub bad_file : ℕ → Cmd (Sys Memory) (Option (ℕ × Image))
  bad_file ip = do in_fs (iunlockput ip); end_op; pure none

  unfoldable pub bad_segments : ℕ → ℕ → ℕ → Cmd (Sys Memory) (Option (ℕ × Image))
  bad_segments ip pagetable sz = do
    in_mem (proc_freepagetable kernel_end pagetable sz)
    in_fs (iunlockput ip)
    end_op
    pure none

  unfoldable pub bad_stack : ℕ → ℕ → Cmd (Sys Memory) (Option (ℕ × Image))
  bad_stack pagetable sz = do in_mem (proc_freepagetable kernel_end pagetable sz); pure none

  -- `exec` behind the loading of the program
  unfoldable pub start_image :
      Image → List ℕ → List ℕ → ℕ → ℕ → ℕ → Cmd (Sys Memory) (Option (ℕ × Image))
  start_image old path argv entry pagetable sz = do
    sz1 ← in_mem (uvmalloc kernel_end pagetable (round_up sz) (round_up sz + 2 * page_size) pte_w)
    if sz1 == 0 then bad_stack pagetable (round_up sz) else do
      in_mem (uvmclear pagetable (sz1 - 2 * page_size))
      pushed ← in_mem (push_stack ustack pagetable sz1 argv)
      elim pushed [
        | none ↦ bad_stack pagetable sz1
        | some (sp, argc) ↦ do
          in_mem (proc_freepagetable kernel_end old.pagetable old.sz)
          pure (
              some (
                argc,
                record {
                  pagetable = pagetable;
                  sz = sz1;
                  a1 = sp;
                  epc = entry;
                  sp = sp;
                  name = safestrcpy old.name (λ i. get_or (last_name path path) i 0) 16;
                },
              ))
      ]

  -- the result is `argc`, with the image that the process gets
  unfoldable pub exec : Image → List ℕ → List ℕ → Cmd (Sys Memory) (Option (ℕ × Image))
  exec old path argv = do
    begin_op
    cwd ← gets λ s. s.cwd
    found ← in_fs (namei cwd path junk)
    elim found [
      | none ↦ do end_op; pure none
      | some (ip, _) ↦ do
        in_fs (ilock ip)
        elf ← read_file ip 0 elf_size
        if not (is_read elf_size (elf.0)) || (field (elf.1) 0 4 /= elf_magic)
            then bad_file ip
            else do
              pagetable ← in_mem (proc_pagetable kernel_end code frame)
              if pagetable == 0 then bad_file ip else do
                loaded ← load_segments (field (elf.1) 56 2) ip pagetable (field (elf.1) 32 8) 0
                if not (loaded.0) then bad_segments ip pagetable (loaded.1) else do
                  in_fs (iunlockput ip)
                  end_op
                  start_image old path argv (field (elf.1) 24 8) pagetable (loaded.1)
    ]
