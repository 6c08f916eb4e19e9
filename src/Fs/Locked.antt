-- ===== src/Fs/Locked.antt =====
-- A write with the inode locked.
use os2025_assignment.Base.{
  ℕ, ◌+◌, ◌-◌, ◌*◌, ◌/◌, ◌%◌, ◌≤◌, ◌<◌, ◌≡◌, ◌≢◌, refl, ◌∙◌, ap, ap₂, sym, Bool, true, false, ◌&&◌,
  Option, some, ltb, ◌/=◌, ==_ne, if◌then◌else◌, arith, update, update_self, within,
}
use os2025_assignment.Machine.{ok}
use os2025_assignment.Fs.{Fs, bsize, maxfile}
use os2025_assignment.Fs.Content.{writei}
use os2025_assignment.Fs.Inodes.{ilock, iunlock}
use os2025_assignment.Fs.Bytes.{block_of, byte_of, HasBlocks}
use os2025_assignment.Fs.Written.{IsApart, Sourced, written}
use os2025_assignment.Fs.File.{IsWritten, writei_lem}

-- An inode that is in use and not locked, with its copy of the disk read.
abbrev pub IsReady : ℕ → Fs → Type 0
IsReady ip s =
    (ip ≢ 0)
    × (0 < (s.itable (ip - 1)).ref)
    × ((s.itable (ip - 1)).locked ≡ false)
    × ((s.itable (ip - 1)).valid ≡ true)

abbrev locked_as : ℕ → Bool → Fs → Fs
locked_as ip v s = record s {
  itable = update s.itable (ip - 1) (record (s.itable (ip - 1)) { locked = v });
}

locked_entry :
    (ip : ℕ) (v : Bool) (s : Fs)
    → (locked_as ip v s).itable (ip - 1) ≡ record (s.itable (ip - 1)) { locked = v }
locked_entry ip v s = update_self s.itable (ip - 1) (record (s.itable (ip - 1)) { locked = v })

ilock_lem : (ip : ℕ) (s : Fs) → IsReady ip s → ilock ip s ≡ ok tt (locked_as ip true s)
unfolding ilock
ilock_lem ip s (ne, pos, free, v) =
    let used : ltb (s.itable (ip - 1)).ref 1 ≡ false = ground arith in
    simp (==_ne ip 0 ne, used, free, v)

iunlock_lem :
    (ip : ℕ) (s : Fs)
    → ip ≢ 0
    → 0 < (s.itable (ip - 1)).ref
    → (s.itable (ip - 1)).locked ≡ true
    → iunlock ip s ≡ ok tt (locked_as ip false s)
unfolding iunlock
iunlock_lem ip s ne pos held =
    let used : ltb (s.itable (ip - 1)).ref 1 ≡ false = ground arith in
    simp (==_ne ip 0 ne, used, held)

-- the same blocks and bytes
abbrev pub IsKept : ℕ → Fs → Fs → Type 0
IsKept ip s s' =
    ((s'.itable (ip - 1)).copy ≡ (s.itable (ip - 1)).copy)
    × (s'.numbers ≡ s.numbers)
    × (s'.bytes ≡ s.bytes)

locked_as-IsKept : (ip : ℕ) (v : Bool) (s : Fs) → IsKept ip s (locked_as ip v s)
locked_as-IsKept ip v s = (ap (λ i. i.copy) (locked_entry ip v s), refl, refl)

block_of_kept : (ip bn : ℕ) (s s' : Fs) → IsKept ip s s' → block_of ip s' bn ≡ block_of ip s bn
block_of_kept ip bn s s' (c, n, b) =
    ap₂
      (λ d numbers.
        if ltb bn 12
        then d.addrs bn
        else if ltb (bn - 12) 256 && (d.addrs 12 /= 0)
        then numbers (d.addrs 12) (bn - 12)
        else 0)
      c n

byte_of_kept : (ip i : ℕ) (s s' : Fs) → IsKept ip s s' → byte_of ip s' i ≡ byte_of ip s i
byte_of_kept ip i s s' (c, n, b) =
    ap₂ (λ bytes bn. bytes bn (i % bsize)) b (block_of_kept ip (i / bsize) s s' (c, n, b))

pub written_eq :
    (source : ℕ → ℕ) (src off n i : ℕ) (old old' : ℕ → ℕ)
    → old i ≡ old' i
    → written source src off n old i ≡ written source src off n old' i
written_eq source src off n i old old' e =
    ap (λ v. if within off n i then source (src + (i - off)) else v) e

-- The writes keep what they need.
pub IsWritten-IsReady :
    (source : ℕ → ℕ) (ip src off n : ℕ) (s s' : Fs)
    → IsWritten source ip src off n s s'
    → IsReady ip s
    → IsReady ip s'
IsWritten-IsReady source ip src off n s s' w (ne, pos, free, v) =
    (ne, rw w.same_ref pos, w.same_locked ∙ free, w.same_valid ∙ v)

-- A write between lock and unlock.
pub record Round (copyin : ℕ → ℕ → Option (ℕ → ℕ)) (source : ℕ → ℕ) (ip src off n : ℕ) (s : Fs)
    : Type 0 where
  pub s1 : Fs
  pub s2 : Fs
  pub s3 : Fs
  pub lock : ilock ip s ≡ ok tt s1
  pub write : writei copyin ip src off n s1 ≡ ok (some n) s2
  pub unlock : iunlock ip s2 ≡ ok tt s3
  pub done : IsWritten source ip src off n s s3

around :
    (source : ℕ → ℕ) (ip src off n : ℕ) (s s2 : Fs)
    → IsReady ip s
    → IsWritten source ip src off n (locked_as ip true s) s2
    → IsWritten source ip src off n s (locked_as ip false s2)
around source ip src off n s s2 (ne, pos, free, v) w =
    let k = locked_as-IsKept ip true s in
    let k' = locked_as-IsKept ip false s2 in
    let e = locked_entry ip true s in
    let e' = locked_entry ip false s2 in
    record {
      same_blocks = λ bn.
          block_of_kept ip bn s2 (locked_as ip false s2) k'
          ∙ w.same_blocks bn
          ∙ block_of_kept ip bn s (locked_as ip true s) k;
      reaches = rw (ap (λ i. i.copy.size) e') w.reaches;
      same_ref = ap (λ i. i.ref) e' ∙ w.same_ref ∙ ap (λ i. i.ref) e;
      same_locked = ap (λ i. i.locked) e' ∙ sym free;
      same_valid = ap (λ i. i.valid) e' ∙ w.same_valid ∙ ap (λ i. i.valid) e;
      new_bytes = λ i there.
          byte_of_kept ip i s2 (locked_as ip false s2) k'
          ∙ w.new_bytes i
              (λ q. there (sym (block_of_kept ip (i / bsize) s (locked_as ip true s) k) ∙ q))
          ∙ written_eq source src off n i (byte_of ip (locked_as ip true s)) (byte_of ip s)
              (byte_of_kept ip i s (locked_as ip true s) k);
    }

pub round_lem :
    (copyin : ℕ → ℕ → Option (ℕ → ℕ)) (source : ℕ → ℕ) (ip src off n : ℕ) (s : Fs)
    → Sourced copyin source src n
    → IsReady ip s
    → off ≤ (s.itable (ip - 1)).copy.size
    → off + n ≤ maxfile * bsize
    → IsApart ip s
    → HasBlocks ip s off n
    → Round copyin source ip src off n s
round_lem copyin source ip src off n s works (ne, pos, free, v) h u apart all =
    let s1 = locked_as ip true s in
    let k = locked_as-IsKept ip true s in
    let e = locked_entry ip true s in
    let blocks : (bn : ℕ) → block_of ip s1 bn ≡ block_of ip s bn =
      λ bn. block_of_kept ip bn s s1 k in
    let (s2, run, w) =
      writei_lem copyin source ip src off n s1 works (rw (ap (λ i. i.copy.size) e) h) u
        (λ a b there q. apart a b (λ z. there (blocks a ∙ z)) (sym (blocks a) ∙ q ∙ blocks b))
        (λ i l g z. all i l g (sym (blocks (i / bsize)) ∙ z)) in
    record {
      s1 = s1;
      s2 = s2;
      s3 = locked_as ip false s2;
      lock = ilock_lem ip s (ne, pos, free, v);
      write = run;
      unlock =
          iunlock_lem ip s2 ne (rw (w.same_ref ∙ ap (λ i. i.ref) e) pos)
            (w.same_locked ∙ ap (λ i. i.locked) e);
      done = around source ip src off n s s2 (ne, pos, free, v) w;
    }
