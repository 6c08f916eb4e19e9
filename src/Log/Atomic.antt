-- ===== src/Log/Atomic.antt =====
-- `commit` is atomic and durable.
use os2025_assignment.Base.{
  ℕ, zero, suc, ◌+◌, ◌≤◌, ◌<◌, ◌≡◌, refl, ◌∙◌, ap, ◌⊎◌, Bool, true, false, inl, inr, arith, ◌==◌,
  ltb, Bool-cases,
}
use os2025_assignment.Log.{Log, write_head, write_log, commit, initlog, copy_numbers}
use os2025_assignment.Log.Replay.{pick, is_logged}
use os2025_assignment.Log.Steps.{Outside, copy_numbers_lem}
use os2025_assignment.Log.Recovery.{
  view, recovered, install, install-recovered, install_complete, install-off, install-head,
  install-place,
}
use os2025_assignment.Log.Crash.{IsLog, initlog_complete}
use os2025_assignment.Log.Commit.{
  IsReady, write_log-Outside, kept, committed-IsWritten, committed-recovered,
}

module _ {Data : Type 0} where
  install-IsLog : (r : Bool) (u : Log Data) → IsLog u → IsLog (install r u)
  install-IsLog r u c = elim (install-head r u) [
    | inl same ↦
        rw ((install-place r u).0, (install-place r u).1, same)
          (record { targets = c.targets; room = c.room })
    | inr none_ ↦ record {
      targets = λ i l. absurd (omega (arith, none_));
      room = omega (arith, none_, (install-place r u).1, c.room);
    }
  ]

module _ {Data : Type 0} (s : Log Data) (c : IsReady s) where
  -- with an empty log the disk is the file system
  view-empty : (d : ℕ → Data) (b : ℕ) → view s.start s.head d b ≡ d b
  unfolding pick
  view-empty d b = ap (λ n. pick s.head.block b (λ i. d (s.start + i + 1)) n 0 (d b)) (c.empty)

  abbrev begun : Log Data
  begun = write_head (write_log s)

  without_power : s.power ≤ s.lh.n → ((write_log s).power == 0) ≡ true
  without_power h = ground (arith, (kept s c).power)

  -- The header's write does not reach the disk.
  lost : s.power ≤ s.lh.n → (b : ℕ) → Outside s b → recovered (install false begun) b ≡ s.disk b
  unfolding write_head
  lost h b o =
      let off = without_power h in
      install-off false begun (rw ((kept s c).lh, (kept s c).start, (kept s c).size) (c.homes))
        (rw ((kept s c).lh, (kept s c).size) (c.fits)) (omega (arith, (kept s c).power)) b
      ∙ rw (off, (kept s c).head, (kept s c).start)
          (view-empty (write_log s).disk b ∙ write_log-Outside s c b o)

  -- Wherever the power ends in `commit`, the file system that recovery finds is that before the
  -- transaction or that behind it.
  pub commit-recovered :
      ((b : ℕ) → Outside s b → recovered (commit s) b ≡ s.disk b)
      ⊎ ((b : ℕ) → Outside s b → recovered (commit s) b ≡ s.cache b)
  unfolding commit
  commit-recovered = elim (Bool-cases (ltb 0 s.lh.n)) [
    | inr none_ ↦ inl λ b o. rw none_ (view-empty s.disk b)
    | inl some_ ↦ elim (Bool-cases (ltb s.lh.n s.power)) [
      | inl on ↦ inr λ b o. rw some_ (
          install-recovered false begun (committed-IsWritten s c (ground arith)) b
          ∙ committed-recovered s c (ground arith) b o)
      | inr off ↦ inl λ b o. rw some_ (lost (ground arith) b o)
    ]
  ]

  begun-IsLog : IsLog begun
  unfolding write_head
  begun-IsLog = elim (Bool-cases ((write_log s).power == 0)) [
    | inl off ↦
        rw (off, (kept s c).head, (kept s c).start, (kept s c).size)
          (record {
            targets = λ i l. absurd (omega (arith, c.empty));
            room = omega (arith, c.empty, c.fits);
          })
    | inr on ↦
        rw (on, (kept s c).lh, (kept s c).start, (kept s c).size)
          (record { targets = λ i l. rw (copied i l) (c.homes i l); room = c.fits })
  ]
    where
      copied :
          (i : ℕ)
          → i < s.lh.n
          → copy_numbers s.lh.n 0 s.lh.block (write_log s).head.block i ≡ s.lh.block i
      copied i l = ground (arith, copy_numbers_lem s.lh.n 0 s.lh.block (write_log s).head.block i)

  commit-IsLog : IsLog (commit s)
  unfolding commit
  commit-IsLog = elim (Bool-cases (ltb 0 s.lh.n)) [
    | inr none_ ↦ rw none_ (record {
      targets = λ i l. absurd (omega (arith, c.empty));
      room = omega (arith, c.empty, c.fits);
    })
    | inl some_ ↦ rw some_ (install-IsLog false begun begun-IsLog)
  ]

  commit-size : (commit s).size ≡ s.size
  unfolding commit write_head
  commit-size = elim (Bool-cases (ltb 0 s.lh.n)) [
    | inr none_ ↦ rw none_
    | inl some_ ↦ rw some_ ((install-place false begun).1 ∙ (kept s c).size)
  ]

  -- Wherever the power ends in `commit`, the disk after the next complete recovery has, outside the
  -- log, either all blocks as they were before the transaction, or all as the transaction left them
  -- in the cache.
  pub commit-atomic :
      (power : ℕ)
      → s.size ≤ power
      → ((b : ℕ) → Outside s b → (initlog power (commit s)).disk b ≡ s.disk b)
        ⊎ ((b : ℕ) → Outside s b → (initlog power (commit s)).disk b ≡ s.cache b)
  commit-atomic power h = elim commit-recovered [
    | inl before ↦ inl λ b o. full b ∙ before b o
    | inr behind ↦ inr λ b o. full b ∙ behind b o
  ]
    where
      full : (b : ℕ) → (initlog power (commit s)).disk b ≡ recovered (commit s) b
      full b =
          (initlog_complete power b (commit s) commit-IsLog
            (omega (arith, commit-IsLog.room, commit-size))).0

  no_entry : (b n : ℕ) → ltb 0 n ≡ false → is_logged s.lh.block b n 0 ≡ false
  unfolding is_logged
  no_entry b zero h = refl
  no_entry b (suc n) h = absurd (ground arith)

  enough : s.lh.n + s.lh.n + 1 < s.power → begun.lh.n < begun.power
  unfolding write_head
  enough more = omega (arith, (kept s c).power, ap (λ h. h.n) ((kept s c).lh))

  -- With power for two writes of each entry and two of the header, `commit` leaves the blocks of
  -- the file system on the disk as they are in the cache, and the log empty on the disk.
  pub commit-durable :
      s.lh.n + s.lh.n + 1 < s.power
      → ((b : ℕ) → Outside s b → (commit s).disk b ≡ s.cache b) × ((commit s).head.n ≡ 0)
  unfolding commit
  commit-durable more = elim (Bool-cases (ltb 0 s.lh.n)) [
    | inr none_ ↦ rw none_ ((λ b o. c.clean b o (no_entry b s.lh.n none_)), c.empty)
    | inl some_ ↦
        let w = committed-IsWritten s c (omega arith) in
        rw some_ (
          (λ b o.
              (install_complete false begun w b (enough more)).0
              ∙ committed-recovered s c (omega arith) b o),
          (install_complete false begun w 0 (enough more)).1,
        )
  ]
