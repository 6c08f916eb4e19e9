-- ===== src/Log/Crash.antt =====
-- What a crash during `commit` or during recovery leaves, once the machine has recovered.
use os2025_assignment.Base.{ℕ, ◌<◌, ◌≡◌, refl, true, false, arith}
use os2025_assignment.Log.{Log, read_head, recover_from_log, initlog, copy_numbers}
use os2025_assignment.Log.Steps.{Outside, copy_numbers_lem}
use os2025_assignment.Log.Recovery.{recovered, IsWritten, install-recovered, install_complete}

module _ {Data : Type 0} where
  -- The header on the disk names blocks of the file system only, and fits into the log.
  pub record IsLog (s : Log Data) : Type 0 where
    pub targets : (i : ℕ) → i < s.head.n → Outside s (s.head.block i)
    pub room : s.head.n < s.size

  -- the state in which `recover_from_log` installs the log
  abbrev restarted : ℕ → Log Data → Log Data
  restarted power s = read_head (record s {
    outstanding = 0;
    committing = false;
    lh = record { n = 0; block = λ _. 0 };
    cache = s.disk;
    pins = λ _. 0;
    power = power;
  })

  restarted-IsWritten : (power : ℕ) (s : Log Data) → IsLog s → IsWritten (restarted power s)
  unfolding read_head
  restarted-IsWritten power s c =
      let same : (i : ℕ)
          → i < s.head.n
          → copy_numbers s.head.n 0 s.head.block (λ _. 0) i ≡ s.head.block i =
        λ i l. ground (arith, copy_numbers_lem s.head.n 0 s.head.block (λ _. 0) i) in
      record {
        count = refl;
        blocks = same;
        homes = λ i l. rw (same i l) (c.targets i l);
        fits = c.room;
        copies = λ i l. refl;
      }

  -- When the machine stops during recovery, the next recovery finds the same file system.
  pub initlog-recovered :
      (power b : ℕ) (s : Log Data) → IsLog s → recovered (initlog power s) b ≡ recovered s b
  unfolding initlog recover_from_log read_head
  initlog-recovered power b s c =
      install-recovered true (restarted power s) (restarted-IsWritten power s c) b

  -- With power for the whole log, recovery leaves the file system on the disk and the log empty.
  pub initlog_complete :
      (power b : ℕ) (s : Log Data)
      → IsLog s
      → s.head.n < power
      → ((initlog power s).disk b ≡ recovered s b) × ((initlog power s).head.n ≡ 0)
  unfolding initlog recover_from_log read_head
  initlog_complete power b s c more =
      install_complete true (restarted power s) (restarted-IsWritten power s c) b more
