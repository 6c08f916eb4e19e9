-- ===== src/Log/Checks.antt =====
-- A log of 31 blocks behind block 2, with a transaction that changes block 50.
use os2025_assignment.Base.{ℕ, ◌≡◌, refl, ◌⊎◌, true, false, arith, update, if◌then◌else◌}
use os2025_assignment.Machine.{ok}
use os2025_assignment.Log.{Log, commit, initlog, log_write}
use os2025_assignment.Log.Write.{log_write-IsReady}
use os2025_assignment.Log.Replay.{is_logged}
use os2025_assignment.Log.Steps.{Outside}
use os2025_assignment.Log.Recovery.{recovered}
use os2025_assignment.Log.Crash.{IsLog, initlog_complete, initlog-recovered}
use os2025_assignment.Log.Commit.{IsReady}
use os2025_assignment.Log.Atomic.{commit-atomic, commit-durable}

abbrev pending : ℕ → Log ℕ
pending power = record {
  start = 2;
  size = 31;
  outstanding = 1;
  committing = false;
  lh = record { n = 1; block = λ _. 50 };
  head = record { n = 0; block = λ _. 0 };
  disk = λ b. b;
  cache = update (λ b. b) 50 99;
  pins = λ _. 0;
  power = power;
}

pending-IsReady : (power : ℕ) → IsReady (pending power)
unfolding is_logged
pending-IsReady power = record {
  empty = refl;
  homes = λ i l. refl;
  fits = omega arith;
  clean = λ b o h. ground arith;
}

commit-atomic_example :
    ((b : ℕ) → Outside (pending 2) b → (initlog 31 (commit (pending 2))).disk b ≡ b)
    ⊎ ((b : ℕ)
        → Outside (pending 2) b
        → (initlog 31 (commit (pending 2))).disk b ≡ update (λ b. b) 50 99 b)
commit-atomic_example = commit-atomic (pending 2) (pending-IsReady 2) 31 (omega arith)

commit-durable_example :
    ((b : ℕ) → Outside (pending 4) b → (commit (pending 4)).disk b ≡ update (λ b. b) 50 99 b)
    × ((commit (pending 4)).head.n ≡ 0)
commit-durable_example = commit-durable (pending 4) (pending-IsReady 4) (omega arith)

-- The header is on the disk, and the block's copy is 99.
abbrev interrupted : Log ℕ
interrupted = record (pending 0) {
  head = record { n = 1; block = λ _. 50 };
  disk = update (λ b. b) 3 99;
}

interrupted-IsLog : IsLog interrupted
interrupted-IsLog = record { targets = λ i l. refl; room = omega arith }

initlog_complete_example :
    ((initlog 31 interrupted).disk 50 ≡ recovered interrupted 50)
    × ((initlog 31 interrupted).head.n ≡ 0)
initlog_complete_example = initlog_complete 31 50 interrupted interrupted-IsLog (omega arith)

initlog-recovered_example : recovered (initlog 1 interrupted) 50 ≡ recovered interrupted 50
initlog-recovered_example = initlog-recovered 1 50 interrupted interrupted-IsLog

-- a second block is added, and a second operation waits for the first
log_write-IsReady_example :
    (s' : Log ℕ) × (log_write 60 (record (pending 4) { cache = update (pending 4).cache 60 7 })
      ≡ ok tt s')
    × IsReady s'
    × (is_logged s'.lh.block 60 s'.lh.n 0 ≡ true)
    × (s'.lh.n ≡ (if is_logged (λ _. 50) 60 1 0 then 1 else 2))
log_write-IsReady_example =
    log_write-IsReady 60 7 (pending 4) (pending-IsReady 4) refl (omega arith) (omega arith)
      (omega arith) (omega arith)
