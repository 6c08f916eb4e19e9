-- ===== src/Log/Commit.antt =====
-- What `commit` has written when the header reaches the disk.
use os2025_assignment.Base.{
  ℕ, ◌+◌, ◌-◌, ◌≤◌, ◌<◌, ◌≡◌, refl, ◌∙◌, sym, false, arith, ◌==◌, if◌then◌else◌, within,
}
use os2025_assignment.Log.{Log, write_head, write_log, copy_numbers}
use os2025_assignment.Log.Replay.{pick-copies, pick-blocks, is_logged}
use os2025_assignment.Log.Steps.{
  Outside, Homes, write_log_loop-disk, write_log_loop-cache, write_log_loop-Kept, writes, writes-le,
  writes-all, Kept, copy_numbers_lem,
}
use os2025_assignment.Log.Recovery.{recovered, IsWritten, not_zero}

behind :
    (start size n b : ℕ)
    → within start size b ≡ false
    → n < size
    → within (start + 0 + 1) n b ≡ false
behind start size n b h l = ground arith

-- the entry `i` of a list that starts behind the header
entry :
    {A : Type 0} (start n i : ℕ) (f : ℕ → A) (z : A)
    → i < n
    → (if within (start + 0 + 1) n (start + i + 1) then f (start + i + 1 - start - 1) else z) ≡ f i
entry start n i f z l = let e : start + i + 1 - start - 1 ≡ i = omega arith in rw e (ground arith)

module _ {Data : Type 0} where
  -- A transaction is ready to be committed: the log on the disk is empty, the entries name blocks
  -- of the file system and fit into the log, and a block without entry is the same in the cache and
  -- on the disk.
  pub record IsReady (s : Log Data) : Type 0 where
    pub empty : s.head.n ≡ 0
    pub homes : Homes s s.lh.n
    pub fits : s.lh.n < s.size
    pub clean :
        (b : ℕ) → Outside s b → is_logged s.lh.block b s.lh.n 0 ≡ false → s.disk b ≡ s.cache b

  module _ (s : Log Data) (c : IsReady s) where
    homes : Homes s (0 + s.lh.n)
    homes i l = c.homes i (omega arith)

    fits : 0 + s.lh.n < s.size
    fits = omega (arith, c.fits)

    -- Writing the log touches no block of the file system.
    pub write_log-Outside : (b : ℕ) → Outside s b → (write_log s).disk b ≡ s.disk b
    unfolding write_log
    write_log-Outside b o =
        write_log_loop-disk s.lh.n 0 b s homes fits
        ∙ rw (
            behind s.start s.size (writes s.lh.n s.power) b o
              (omega (arith, writes-le s.lh.n s.power, c.fits)))

    write_log-disk :
        (i : ℕ)
        → i < s.lh.n
        → s.lh.n ≤ s.power
        → (write_log s).disk (s.start + i + 1) ≡ s.cache (s.lh.block i)
    unfolding write_log
    write_log-disk i l more =
        write_log_loop-disk s.lh.n 0 (s.start + i + 1) s homes fits
        ∙ rw (writes-all s.lh.n s.power more)
            (entry s.start s.lh.n i (λ j. s.cache (s.lh.block j)) (s.disk (s.start + i + 1)) l)

    write_log-cache :
        (i : ℕ) → i < s.lh.n → (write_log s).cache (s.start + i + 1) ≡ s.cache (s.lh.block i)
    unfolding write_log
    write_log-cache i l =
        write_log_loop-cache s.lh.n 0 (s.start + i + 1) s homes fits
        ∙ entry s.start s.lh.n i (λ j. s.cache (s.lh.block j)) (s.cache (s.start + i + 1)) l

    pub kept : Kept s (write_log s) s.lh.n
    unfolding write_log
    kept = write_log_loop-Kept s.lh.n 0 s

    -- whether the header's write reaches the disk
    pub powered : s.lh.n < s.power → ((write_log s).power == 0) ≡ false
    powered more = not_zero s.power s.lh.n (write_log s).power more (kept.power)

    -- the state behind the header's write, if that reached the disk
    pub committed-IsWritten : s.lh.n < s.power → IsWritten (write_head (write_log s))
    unfolding write_head
    committed-IsWritten more =
        let w = write_log s in
        rw (powered more, kept.lh, kept.start, kept.size)
          (record {
            count = refl;
            blocks = λ i l. ground (arith, copy_numbers_lem s.lh.n 0 s.lh.block w.head.block i);
            homes = c.homes;
            fits = c.fits;
            copies = λ i l. write_log-cache i l ∙ sym (write_log-disk i l (omega arith));
          })

    -- Behind the header's write recovery finds the transaction.
    pub committed-recovered :
        s.lh.n < s.power
        → (b : ℕ) → Outside s b
        → recovered (write_head (write_log s)) b ≡ s.cache b
    unfolding write_head
    committed-recovered more b o =
        let w = write_log s in
        let f : ℕ → Data = λ i. w.disk (s.start + i + 1) in
        let numbers = copy_numbers s.lh.n 0 s.lh.block w.head.block in
        rw (powered more, kept.lh, kept.start)
          (pick-blocks s.lh.block b numbers f s.lh.n 0 (w.disk b)
              (λ i a l. ground (arith, copy_numbers_lem s.lh.n 0 s.lh.block w.head.block i))
            ∙ pick-copies s.lh.block b f s.cache s.lh.n 0 (w.disk b)
                (λ i a l. write_log-disk i (omega arith) (omega arith))
                (λ e. write_log-Outside b o ∙ c.clean b o e))
