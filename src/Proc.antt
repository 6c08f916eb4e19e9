-- ===== src/Proc.antt =====
-- kernel/proc.h and kernel/proc.c: the process table, its locks, and what the code takes from the
-- other parts of the kernel. The pointer `&proc[i]` is the number i + 1, so 0 is NULL and the table
-- is a function from the pointers 1 to 64. An `int` that is only stored is its 32-bit pattern.
pub mod Alloc
pub mod Locks
pub mod Signal
pub mod Sched
pub mod Fork
pub mod Wait
pub mod Waitall
pub mod Exit
mod Checks
use os2025_assignment.Base.{
  ℕ, ◌+◌, ◌-◌, ◌/◌, ◌%◌, ◌^◌, Bool, true, false, List, [], ◌∷◌, ltb, if◌then◌else◌, update,
}
use os2025_assignment.Machine.{Cmd, Void, ok, fail, gets, modify}
use os2025_assignment.Str.{Bytes}
use os2025_assignment.File.{File, Ftable}

pub data ProcState : Type 0 where
  unused used sleeping runnable running zombie : ProcState

abbrev pub is_unused : ProcState → Bool
is_unused unused = true
is_unused _ = false

abbrev pub is_sleeping : ProcState → Bool
is_sleeping sleeping = true
is_sleeping _ = false

abbrev pub is_runnable : ProcState → Bool
is_runnable runnable = true
is_runnable _ = false

abbrev pub is_running : ProcState → Bool
is_running running = true
is_running _ = false

abbrev pub is_zombie : ProcState → Bool
is_zombie zombie = true
is_zombie _ = false

-- `a0` apart, the words of a trapframe are only copied.
pub record Trapframe : Type 0 where
  pub a0 : ℕ
  pub others : List ℕ

-- `ra`, `sp`, and `s0` to `s11`
pub record Context : Type 0 where
  pub ra : ℕ
  pub sp : ℕ
  pub saved : List ℕ

-- `trapframe` and `pagetable` are addresses, 0 for NULL; `frame` is what stands in the trapframe's
-- page. `ofile` holds `f + 1` for `ftable.file[f]` and 0 for NULL.
pub record Proc : Type 0 where
  pub state : ProcState
  pub chan : ℕ
  pub killed : ℕ
  pub xstate : ℕ
  pub pid : ℕ
  pub parent : ℕ
  pub kstack : ℕ
  pub sz : ℕ
  pub pagetable : ℕ
  pub trapframe : ℕ
  pub frame : Trapframe
  pub context : Context
  pub ofile : ℕ → ℕ
  pub cwd : ℕ
  pub name : Bytes
  pub exit_msg : Bytes

abbrev pub nproc : ℕ
nproc = 64

abbrev pub nofile : ℕ
nofile = 16

abbrev pub pgsize : ℕ
pgsize = 4096

-- `proc`, the pointer to the first entry
abbrev pub first_proc : ℕ
first_proc = 1

-- What proc.c calls in kalloc.c, vm.c, trap.c, fs.c, log.c and pipe.c, on the state `World` of those
-- parts. An address of 0 and a result `false` are failures.
pub record Services : Type 1 where
  pub World : Type 0
  pub kalloc : World → ℕ × World
  pub kfree : ℕ → World → World
  pub proc_pagetable : ℕ → World → ℕ × World
  pub proc_freepagetable : ℕ → ℕ → World → World
  pub uvmcopy : ℕ → ℕ → ℕ → World → Bool × World
  pub copyout : ℕ → ℕ → List ℕ → World → Bool × World
  pub idup : ℕ → World → World
  pub begin_op : World → World
  pub iput : ℕ → World → World
  pub end_op : World → World
  pub close_last : File → World → World
  pub forkret : ℕ

-- The state of one CPU and of what it shares. `locks p` and the two fields behind it tell whether
-- this CPU holds `p->lock`, `wait_lock` and `pid_lock`; `noff` counts the locks that it holds, as
-- `push_off` and `pop_off` do, and `current` is `c->proc`.
pub record Kernel (W : Type 0) : Type 0 where
  pub procs : ℕ → Proc
  pub locks : ℕ → Bool
  pub wait_lock : Bool
  pub pid_lock : Bool
  pub noff : ℕ
  pub current : ℕ
  pub initproc : ℕ
  pub nextpid : ℕ
  pub ftable : Ftable
  pub world : W

-- the four bytes of an `int`, the low one first
abbrev pub int_bytes : ℕ → List ℕ
int_bytes v = v % 2 ^ 8 ∷ v / 2 ^ 8 % 2 ^ 8 ∷ v / 2 ^ 16 % 2 ^ 8 ∷ v / 2 ^ 24 % 2 ^ 8 ∷ []

module _ {W : Type 0} where
  abbrev pub push_off : Kernel W → Kernel W
  push_off k = record k { noff = k.noff + 1 }

  abbrev pub pop_off : Cmd (Kernel W) Void
  pop_off k = if ltb k.noff 1 then fail k else ok tt (record k { noff = k.noff - 1 })

  -- `acquire` panics on a lock that this CPU holds, `release` on one that it does not hold.
  unfoldable pub acquire : ℕ → Cmd (Kernel W) Void
  acquire p k =
      if k.locks p then fail k else ok tt (push_off (record k { locks = update k.locks p true }))

  unfoldable pub release : ℕ → Cmd (Kernel W) Void
  release p k = if k.locks p then pop_off (record k { locks = update k.locks p false }) else fail k

  unfoldable pub acquire_wait : Cmd (Kernel W) Void
  acquire_wait k = if k.wait_lock then fail k else ok tt (push_off (record k { wait_lock = true }))

  unfoldable pub release_wait : Cmd (Kernel W) Void
  release_wait k = if k.wait_lock then pop_off (record k { wait_lock = false }) else fail k

  unfoldable pub acquire_pid : Cmd (Kernel W) Void
  acquire_pid k = if k.pid_lock then fail k else ok tt (push_off (record k { pid_lock = true }))

  unfoldable pub release_pid : Cmd (Kernel W) Void
  release_pid k = if k.pid_lock then pop_off (record k { pid_lock = false }) else fail k

  abbrev pub myproc : Cmd (Kernel W) ℕ
  myproc = gets (λ k. k.current)

  abbrev pub get_proc : ℕ → Cmd (Kernel W) Proc
  get_proc i = gets (λ k. k.procs i)

  abbrev pub set_proc : ℕ → (Proc → Proc) → Cmd (Kernel W) Void
  set_proc i f = modify (λ k. record k { procs = update k.procs i (f (k.procs i)) })

  -- a call into another part of the kernel
  abbrev pub call : {A : Type 0} → (W → A × W) → Cmd (Kernel W) A
  call f k = ok (f k.world).0 (record k { world = (f k.world).1 })

  abbrev pub effect : (W → W) → Cmd (Kernel W) Void
  effect f = modify (λ k. record k { world = f k.world })
