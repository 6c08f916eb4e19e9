-- ===== src/Log.antt =====
-- kernel/log.c: the redo log of the file system. A block is a value of the type `Data`; the header
-- block at `log.start` is kept apart from the others, in `head`. `cache b` is what `bread` finds
-- for the block `b`, in a buffer or else on the disk. The device writes one block at a time, and
-- `power` says how many more writes reach the disk before the machine stops, so that a crash at
-- any moment is a run with the right `power`.
pub mod Replay
pub mod Steps
pub mod Recovery
pub mod Crash
pub mod Commit
pub mod Atomic
pub mod Write
mod Checks
use os2025_assignment.Base.{
  ℕ, zero, suc, ◌+◌, ◌-◌, ◌*◌, ◌%◌, ◌^◌, Bool, true, false, ◌&&◌, ◌||◌, List, [], ◌∷◌, ltb, leb,
  ◌==◌, if◌then◌else◌, update,
}
use os2025_assignment.Machine.{Cmd, Void, ok, pure, fail}

abbrev pub logsize : ℕ
logsize = 30

abbrev pub maxopblocks : ℕ
maxopblocks = 10

-- `struct logheader`
pub record Header : Type 0 where
  pub n : ℕ
  pub block : ℕ → ℕ

-- `lh` is the header in memory. `outstanding` is the 32-bit pattern of the `int`. `pins` counts
-- the references that keep a buffer in the cache.
pub record Log (Data : Type 0) : Type 0 where
  pub start : ℕ
  pub size : ℕ
  pub outstanding : ℕ
  pub committing : Bool
  pub lh : Header
  pub head : Header
  pub disk : ℕ → Data
  pub cache : ℕ → Data
  pub pins : ℕ → ℕ
  pub power : ℕ

-- how a call of `begin_op` ends
pub data Begin : Type 0 where
  begun : Begin
  asleep : Begin

-- the loop that copies block numbers, with `n` left from `i` on
unfoldable pub copy_numbers : ℕ → ℕ → (ℕ → ℕ) → (ℕ → ℕ) → ℕ → ℕ
copy_numbers zero i from to = to
copy_numbers (suc n) i from to = copy_numbers n (i + 1) from (update to i (from i))

-- the index of the block among the `n` entries from `i` on, or the index behind them
unfoldable pub find_entry : ℕ → ℕ → (ℕ → ℕ) → ℕ → ℕ
find_entry zero i block b = i
find_entry (suc n) i block b =
    let rest = find_entry n (i + 1) block b in if block i == b then i else rest

-- The test for room in the log, on the type `int`: its product and sum wrap around, and the
-- patterns from 2^31 on are negative.
abbrev pub is_short : ℕ → ℕ → Bool
is_short n outstanding =
    let used = (n + outstanding * maxopblocks) % 2 ^ 32 in ltb logsize used && ltb used (2 ^ 31)

module _ {Data : Type 0} where
  abbrev pub bwrite : ℕ → Log Data → Log Data
  bwrite b s = record s {
    disk = if s.power == 0 then s.disk else update s.disk b (s.cache b);
    power = s.power - 1;
  }

  -- one round of `install_trans`
  unfoldable pub install_block : Bool → ℕ → Log Data → Log Data
  install_block recovering tail s =
      let home = s.lh.block tail in
      let copied = record s { cache = update s.cache home (s.cache (s.start + tail + 1)) } in
      record (bwrite home copied) {
        pins = if recovering then s.pins else update s.pins home (s.pins home - 1);
      }

  unfoldable pub install_loop : Bool → ℕ → ℕ → Log Data → Log Data
  install_loop recovering zero tail s = s
  install_loop recovering (suc n) tail s =
      install_loop recovering n (tail + 1) (install_block recovering tail s)

  unfoldable pub install_trans : Bool → Log Data → Log Data
  install_trans recovering s = install_loop recovering s.lh.n 0 s

  unfoldable pub read_head : Log Data → Log Data
  read_head s = record s {
    lh = record { n = s.head.n; block = copy_numbers s.head.n 0 s.head.block s.lh.block };
  }

  unfoldable pub write_head : Log Data → Log Data
  write_head s = record s {
    head =
        if s.power == 0
        then s.head
        else record { n = s.lh.n; block = copy_numbers s.lh.n 0 s.lh.block s.head.block };
    power = s.power - 1;
  }

  -- `log.lh.n = 0`
  abbrev pub emptied : Log Data → Log Data
  emptied s = record s { lh = record s.lh { n = 0 } }

  unfoldable pub recover_from_log : Log Data → Log Data
  recover_from_log s = write_head (emptied (install_trans true (read_head s)))

  -- one round of `write_log`
  unfoldable pub log_block : ℕ → Log Data → Log Data
  log_block tail s =
      let to = s.start + tail + 1 in
      bwrite to (record s { cache = update s.cache to (s.cache (s.lh.block tail)) })

  unfoldable pub write_log_loop : ℕ → ℕ → Log Data → Log Data
  write_log_loop zero tail s = s
  write_log_loop (suc n) tail s = write_log_loop n (tail + 1) (log_block tail s)

  unfoldable pub write_log : Log Data → Log Data
  write_log s = write_log_loop s.lh.n 0 s

  unfoldable pub commit : Log Data → Log Data
  commit s =
      if ltb 0 s.lh.n
      then write_head (emptied (install_trans false (write_head (write_log s))))
      else s

  -- One round of the loop: `none` means that it sleeps. What other threads do during each sleep is
  -- a list of functions.
  unfoldable pub begin_op : List (Log Data → Log Data) → Log Data → Begin × Log Data
  begin_op [] s =
      if s.committing || is_short s.lh.n ((s.outstanding + 1) % 2 ^ 32)
      then (asleep, s)
      else (begun, record s { outstanding = (s.outstanding + 1) % 2 ^ 32 })
  begin_op (others ∷ away) s =
      let later = begin_op away (others s) in
      if s.committing || is_short s.lh.n ((s.outstanding + 1) % 2 ^ 32)
      then later
      else (begun, record s { outstanding = (s.outstanding + 1) % 2 ^ 32 })

  -- The waking of threads that wait in `begin_op` changes nothing here.
  unfoldable pub end_op : Cmd (Log Data) Void
  end_op s =
      let left = (s.outstanding + 2 ^ 32 - 1) % 2 ^ 32 in
      if s.committing
      then fail s
      else if left == 0
      then ok tt (record (commit (record s { outstanding = left; committing = true })) {
        committing = false;
      })
      else ok tt (record s { outstanding = left })

  -- `b` is the block number of the buffer; of a block that is in the log already the entry is used
  -- again.
  unfoldable pub log_write : ℕ → Cmd (Log Data) Void
  log_write b s =
      let i = find_entry s.lh.n 0 s.lh.block b in
      if leb logsize s.lh.n || leb s.size (s.lh.n + 1)
      then fail s
      else if ltb s.outstanding 1 || leb (2 ^ 31) s.outstanding
      then fail s
      else ok tt (record s {
        lh = record {
          n = if i == s.lh.n then s.lh.n + 1 else s.lh.n;
          block = update s.lh.block i b;
        };
        pins = if i == s.lh.n then update s.pins b (s.pins b + 1) else s.pins;
      })

  -- The machine starts again with what is on the disk; `initlog` then runs `recover_from_log`.
  unfoldable pub initlog : ℕ → Log Data → Log Data
  initlog power s = recover_from_log (record s {
    outstanding = 0;
    committing = false;
    lh = record { n = 0; block = λ _. 0 };
    cache = s.disk;
    pins = λ _. 0;
    power = power;
  })
