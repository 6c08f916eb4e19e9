-- ===== src/Fs/Checks.antt =====
-- A disk of five blocks, the first two in use, and a table that holds the root directory.
use os2025_assignment.Base.{
  ℕ, ◌≤◌, ◌+◌, ◌*◌, ◌/◌, ◌≢◌, ◌≡◌, refl, ◌∙◌, sym, Bool, true, false, not, Option, ltb, ◌==◌,
  if◌then◌else◌, some, [], ◌∷◌, arith, update, none,
}
use os2025_assignment.File.{File, inode}
use os2025_assignment.Machine.{ok, pure}
use os2025_assignment.Fs.{Fs, Inode, blank_dinode, balloc_loop, balloc, bzero}
use os2025_assignment.Fs.Content.{readi, writei}
use os2025_assignment.Fs.Bytes.{block_of, HasBlocks, CanTake, read_result, readi_lem}
use os2025_assignment.Fs.Written.{IsApart, Sourced}
use os2025_assignment.Fs.File.{IsWritten, writei-readi}
use os2025_assignment.Fs.Open.{filewrite}
use os2025_assignment.Fs.Filewrite.{logged, filewrite_lem}
use os2025_assignment.Fs.Inodes.{iget_loop, iget}
use os2025_assignment.Fs.Alloc.{marked}
use os2025_assignment.Fs.Scan.{IsFor, IsUnique}
use os2025_assignment.Fs.Table.{Gotten, iget_lem, iget-IsUnique}

abbrev free_inode : Inode
free_inode = record {
  dev = 0;
  inum = 0;
  ref = 0;
  locked = false;
  valid = false;
  copy = blank_dinode;
}

abbrev root_inode : Inode
root_inode = record free_inode { dev = 1; inum = 1; ref = 1 }

abbrev disk : Fs
disk = record {
  blocks = 5;
  ninodes = 3;
  used = λ b. ltb b 2;
  dinodes = λ _. blank_dinode;
  bytes = λ _ _. 0;
  numbers = λ _ _. 0;
  itable = λ i. if i == 0 then root_inode else free_inode;
}

balloc_first : balloc disk ≡ ok 2 (marked 2 disk)
unfolding balloc balloc_loop bzero
balloc_first = refl

iget_lem_example : Gotten 1 2 disk (iget 1 2 disk)
iget_lem_example = iget_lem 1 2 disk

only_root : (i dev inum : ℕ) → IsFor dev inum (disk.itable i) → i ≡ 0
only_root i dev inum (pos, _, _) = ground arith

disk-IsUnique : IsUnique disk.itable
disk-IsUnique i j dev inum a b f g = only_root i dev inum f ∙ sym (only_root j dev inum g)

iget_runs :
    iget 1 2 disk
    ≡ ok 2 (record disk {
      itable = update disk.itable 1 (record free_inode { dev = 1; inum = 2; ref = 1 });
    })
unfolding iget iget_loop
iget_runs = refl

iget-IsUnique_example :
    IsUnique (update disk.itable 1 (record free_inode { dev = 1; inum = 2; ref = 1 }))
iget-IsUnique_example = iget-IsUnique 1 2 disk _ 2 disk-IsUnique iget_runs

-- an inode of five bytes in the block 2
abbrev small_file : Fs
small_file = record disk {
  itable = λ i. record root_inode {
    valid = true;
    copy = record blank_dinode { size = 5; addrs = λ bn. if bn == 0 then 2 else 0 };
  };
}

one_block : (bn : ℕ) → block_of 1 small_file bn ≢ 0 → bn ≡ 0
one_block bn h = ground arith

small_file-IsApart : IsApart 1 small_file
small_file-IsApart a b h e = one_block a h ∙ sym (one_block b (λ q. h (e ∙ q)))

small_file-HasBlocks : (off n : ℕ) → off + n ≤ 1024 → HasBlocks 1 small_file off n
small_file-HasBlocks off n h i l u =
    let e : i / 1024 ≡ 0 = omega arith in rw e (λ q. absurd (omega (arith, q)))

-- a process that may use the addresses below 4096
abbrev in_page : ℕ → ℕ → Bool
in_page a m = not (ltb 4096 (a + m))

abbrev from_page : ℕ → ℕ → Option (ℕ → ℕ)
from_page a m = if in_page a m then some (λ j. (a + j) * 2) else none

in_page-CanTake : (dst n : ℕ) → dst + n ≤ 4096 → CanTake in_page dst n
in_page-CanTake dst n h d m l u = ground arith

from_page-Sourced : (src n : ℕ) → src + n ≤ 4096 → Sourced from_page (λ i. i * 2) src n
from_page-Sourced src n h a m l u = let e : in_page a m ≡ true = ground arith in rw e refl

writei-readi_example :
    (s' : Fs) × (writei from_page 1 100 4 3 small_file ≡ ok (some 3) s')
    × (readi in_page 1 4000 4 3 s'
        ≡ read_result 3 ((4000, 200) ∷ (4001, 202) ∷ (4002, 204) ∷ []) s')
writei-readi_example =
    writei-readi from_page (λ i. i * 2) 1 in_page 100 4000 4 3 small_file
      (from_page-Sourced 100 3 (omega arith)) (in_page-CanTake 4000 3 (omega arith)) (omega arith)
      (omega arith) small_file-IsApart (small_file-HasBlocks 4 3 (omega arith))

readi_lem_example :
    readi in_page 1 4000 3 7 small_file ≡ read_result 2 ((4000, 0) ∷ (4001, 0) ∷ []) small_file
readi_lem_example =
    readi_lem in_page 1 4000 3 7 small_file (omega arith) (omega arith)
      (in_page-CanTake 4000 2 (omega arith)) (small_file-HasBlocks 3 2 (omega arith))

abbrev opened : File
opened = record {
  kind = inode;
  ref = 1;
  readable = true;
  writable = true;
  pipe_at = 0;
  ip = 1;
  off = 4;
  major = 0;
}

filewrite_lem_example :
    (s' : Fs) × (filewrite from_page
        (λ _. pure none)
        (λ _. false)
        opened
        100
        3
        (logged small_file 2 5)
      ≡ ok (some 3, record opened { off = 7 }) (logged s' 2 6))
    × IsWritten (λ i. i * 2) 1 100 4 3 small_file s'
filewrite_lem_example =
    filewrite_lem from_page (λ i. i * 2) 2 (λ _. pure none) (λ _. false) opened 100 3 5 small_file
      (from_page-Sourced 100 3 (omega arith)) refl refl
      ((λ e. absurd (omega (arith, e))), omega arith, refl, refl) (omega arith) (omega arith)
      small_file-IsApart (small_file-HasBlocks 4 3 (omega arith))
