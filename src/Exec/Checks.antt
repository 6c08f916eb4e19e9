-- ===== src/Exec/Checks.antt =====
-- A process of two pages, the second of them mapped; its tables are at 4096, 8192 and 12288.
use os2025_assignment.Base.{
  ℕ, ◌≡◌, refl, false, Option, none, some, [], ◌∷◌, ◌==◌, if◌then◌else◌, update, ltb, arith,
}
use os2025_assignment.File.{unset}
use os2025_assignment.Vm.{Memory, walkaddr, walk, descend}
use os2025_assignment.Machine.{Run, ok, panic}
use os2025_assignment.Vm.Copy.{copyout, copyout_loop}
use os2025_assignment.Exec.{push_args, push_argv, arg_length, word_bytes}
use os2025_assignment.Str.{strlen, memmove}
use os2025_assignment.Fs.{Inode, blank_dinode}
use os2025_assignment.Sysfile.{Sys}
use os2025_assignment.Sysfile.Balance.{Leaves}
use os2025_assignment.Exec.{Image, field, flags2perm, push_down, last_name, push_stack}
use os2025_assignment.Exec.Push.{Yields, Stacked, push_stack-Stacked}
use os2025_assignment.Exec.Args.{Short, fetch_argv, fetch_argv-Short, sys_exec}
use os2025_assignment.Exec.Ends.{sys_exec-Leaves}

-- The string "h" is at 20480.
abbrev memory : Memory
memory = record {
  kmem = record { freelist = 0; next = λ _. 0; mem = λ a. if a == 20480 then b'h' else 0 };
  pte = update (update (update (λ _. 0) 4096 2049) 8192 3073) 12296 4119;
}

abbrev image : Image
image = record { pagetable = 4096; sz = 8192; a1 = 0; epc = 0; sp = 8192; name = λ _. 0 }

abbrev root_inode : Inode
root_inode = record {
  dev = 1;
  inum = 1;
  ref = 1;
  locked = false;
  valid = false;
  copy = blank_dinode;
}

abbrev process : Sys Memory
process = record {
  ofile = λ _. 0;
  cwd = 1;
  ftable = λ _. record {
    kind = unset;
    ref = 0;
    readable = false;
    writable = false;
    pipe_at = 0;
    ip = 0;
    off = 0;
    major = 0;
  };
  fs = record {
    blocks = 5;
    ninodes = 3;
    used = λ b. ltb b 2;
    dinodes = λ _. blank_dinode;
    bytes = λ _ _. 0;
    numbers = λ _ _. 0;
    itable = λ i. if i == 0 then root_inode else record root_inode { ref = 0 };
  };
  ops = 2;
  world = memory;
}

little_endian : field (0 ∷ 1 ∷ 2 ∷ []) 0 3 ≡ 131328
unfolding field
little_endian = refl

writable_code : flags2perm 7 ≡ 12
unfolding flags2perm
writable_code = refl

-- "/a/b"
base_name : last_name (47 ∷ 97 ∷ 47 ∷ 98 ∷ []) (47 ∷ 97 ∷ 47 ∷ 98 ∷ []) ≡ 98 ∷ []
unfolding last_name
base_name = refl

aligned : push_down 8192 6 ≡ 8176
aligned = refl

push_stack-Stacked_example :
    Yields (Stacked 8192 1) (push_stack 24576 4096 8192 (20480 ∷ []) memory)
push_stack-Stacked_example =
    push_stack-Stacked 24576 4096 8192 (omega arith) (omega arith) (20480 ∷ []) memory refl

fetch_argv-Short_example : Yields (Short 0) (fetch_argv 28672 image 4096 memory)
fetch_argv-Short_example = fetch_argv-Short 28672 image 4096 memory

-- "/", with the arguments in the mapped page
sys_exec-Leaves_example :
    Leaves 2 (sys_exec 32768 (λ _. 0) 24576 65536 69632 28672 image (some (47 ∷ [])) 4096 process)
sys_exec-Leaves_example =
    sys_exec-Leaves (λ _. 0) 32768 24576 65536 69632 28672 image (some (47 ∷ [])) 4096 process

result : Run Memory (Option (ℕ × ℕ)) → Option (ℕ × ℕ)
result panic = none
result (ok a m) = a

-- The string and the array of pointers take 16 bytes each.
pushed : result (push_stack 24576 4096 8192 (20480 ∷ []) memory) ≡ some (8160, 1)
unfolding result push_stack push_args push_argv arg_length strlen copyout copyout_loop walkaddr walk
    descend word_bytes memmove
pushed = refl
