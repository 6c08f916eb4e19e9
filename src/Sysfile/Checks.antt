-- ===== src/Sysfile/Checks.antt =====
-- A process whose descriptor 0 is an inode.
use os2025_assignment.Base.{
  ℕ, zero, suc, ◌+◌, ◌<◌, ltb, ◌==◌, if◌then◌else◌, ◌≡◌, ◌≢◌, ◌⊎◌, refl, Bool, true, false, none,
  some, List, [], ◌∷◌, update, arith,
}
use os2025_assignment.Machine.{ok, pure}
use os2025_assignment.File.{File, unset, inode}
use os2025_assignment.Fs.{Fs, Inode, blank_dinode}
use os2025_assignment.Fs.Inodes.{iput}
use os2025_assignment.Sysfile.{Sys, nofile, fdalloc, sys_dup, sys_close, open_file}
use os2025_assignment.Sysfile.Pipes.{sys_pipe}
use os2025_assignment.Sysfile.Slots.{with_fd, fdalloc_lem}
use os2025_assignment.Sysfile.Counts.{refs, bump, IsCounted, IsCounted-entry, IsCounted-take}
use os2025_assignment.Sysfile.Shares.{bump_ne}
use os2025_assignment.Sysfile.Balance.{Leaves}
use os2025_assignment.Sysfile.Calls.{close, chdir, run_call, run_call-Leaves}
use os2025_assignment.Sysfile.Users.{
  Gives, Duped, Closed, Opened, CanPut, sys_dup-IsCounted, sys_close-IsCounted, open_file-IsCounted,
}
use os2025_assignment.Sysfile.Keeping.{Keeps}
use os2025_assignment.Sysfile.Kept.{run_call-IsCounted}
use os2025_assignment.Sysfile.Pairs.{PairMade, sys_pipe-IsCounted}

abbrev blank_file : File
blank_file = record {
  kind = unset;
  ref = 0;
  readable = false;
  writable = false;
  pipe_at = 0;
  ip = 0;
  off = 0;
  major = 0;
}

abbrev root_inode : Inode
root_inode = record {
  dev = 1;
  inum = 1;
  ref = 1;
  locked = false;
  valid = false;
  copy = blank_dinode;
}

abbrev disk : Fs
disk = record {
  blocks = 5;
  ninodes = 3;
  used = λ b. ltb b 2;
  dinodes = λ _. blank_dinode;
  bytes = λ _ _. 0;
  numbers = λ _ _. 0;
  itable = λ i. if i == 0 then root_inode else record root_inode { ref = 0 };
}

abbrev opened_file : File
opened_file = record blank_file { kind = inode; ref = 1; readable = true; ip = 1 }

-- the world is the address of the next page
abbrev process : Sys ℕ
process = record {
  ofile = update (λ _. 0) 0 1;
  cwd = 1;
  ftable = update (λ _. blank_file) 0 opened_file;
  fs = disk;
  ops = 3;
  world = 4096;
}

abbrev elsewhere : ℕ → ℕ
elsewhere = λ _. 0

none_open : (f n : ℕ) → refs (λ _. 0) f n ≡ 0
unfolding refs
none_open f zero = refl
none_open f (suc n) = rw (refs, none_open f n) (ground arith)

one_ref : opened_file.ref ≢ 0
one_ref e = omega arith

process-IsCounted : IsCounted elsewhere process.ofile process.ftable
process-IsCounted =
    IsCounted-take elsewhere (λ _. 0) process.ftable 0 0
      (IsCounted-entry elsewhere (bump 0 elsewhere) (λ _. 0) (λ _. blank_file) 0 opened_file
        (record { counts = λ f. omega (arith, none_open f 16); clean = λ f _. refl }) refl
        (λ g ne. bump_ne 0 elsewhere g ne) (λ e. elim (one_ref e) [ ]))
      (omega arith) refl

abbrev next_page : ℕ → ℕ × ℕ
next_page w = (w, w + 4096)

abbrev close_pipe : ℕ → Bool → ℕ → ℕ
close_pipe page writing w = w

abbrev copies : ℕ → List ℕ → ℕ → Bool × ℕ
copies addr bytes w = (ltb addr 100, w)

fdalloc_lem_example :
    ((fdalloc 5 process ≡ ok none process) × ((j : ℕ) → j < nofile → process.ofile j ≢ 0))
    ⊎ ((k : ℕ) × (fdalloc 5 process ≡ ok (some k) (with_fd process k 5))
        × (k < nofile)
        × (process.ofile k ≡ 0)
        × ((j : ℕ) → j < k → process.ofile j ≢ 0))
fdalloc_lem_example = fdalloc_lem 5 process

sys_dup-IsCounted_example : Gives (Duped elsewhere 0 process) (sys_dup 0 process)
sys_dup-IsCounted_example = sys_dup-IsCounted elsewhere 0 process process-IsCounted

root_put : CanPut opened_file disk
unfolding iput
root_put = (_, refl)

only : (f : ℕ) → 1 ≡ f + 1 → f ≡ 0
only f e = omega arith

sys_close-IsCounted_example :
    Gives (Closed close_pipe elsewhere 0 process) (sys_close close_pipe 0 process)
sys_close-IsCounted_example =
    sys_close-IsCounted close_pipe elsewhere 0 process process-IsCounted
      λ f e. rw (only f e) root_put

open_file-IsCounted_example :
    Gives (Opened close_pipe elsewhere process) (open_file close_pipe process)
open_file-IsCounted_example = open_file-IsCounted close_pipe elsewhere process process-IsCounted

sys_pipe-IsCounted_example :
    Gives
      (PairMade next_page (λ _ w. w) close_pipe copies elsewhere process)
      (sys_pipe next_page (λ _ w. w) close_pipe copies 64 process)
sys_pipe-IsCounted_example =
    sys_pipe-IsCounted next_page (λ _ w. w) close_pipe copies elsewhere 64 process process-IsCounted

-- "//"
run_call-Leaves_example : Leaves 3 (
    run_call close_pipe next_page
      (λ _ w. w)
      copies
      (λ _. pure none)
      (λ _. false)
      (λ _ _. true)
      (λ a _. some λ j. a + j)
      (λ _. 0)
      (λ _. 0)
      (chdir (some (47 ∷ 47 ∷ [])))
      process)
run_call-Leaves_example =
    run_call-Leaves close_pipe next_page (λ _ w. w) copies (λ _. pure none) (λ _. false)
      (λ _ _. true) (λ a _. some λ j. a + j) (λ _. 0) (λ _. 0) (chdir (some (47 ∷ 47 ∷ []))) process

run_call-IsCounted_example : Keeps elsewhere (
    run_call close_pipe next_page
      (λ _ w. w)
      copies
      (λ _. pure none)
      (λ _. false)
      (λ _ _. true)
      (λ a _. some λ j. a + j)
      (λ _. 0)
      (λ _. 0)
      (close 0)
      process)
run_call-IsCounted_example =
    run_call-IsCounted elsewhere (λ _. 0) (λ _. 0) close_pipe next_page (λ _ w. w) copies
      (λ _. pure none) (λ _. false) (λ _ _. true) (λ a _. some λ j. a + j) (close 0) process
      process-IsCounted
