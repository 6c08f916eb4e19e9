-- ===== src/Log/Recovery.antt =====
-- The file system that a disk stands for, and that installing the log does not change it.
use os2025_assignment.Base.{
  ℕ, ◌+◌, ◌-◌, ◌<◌, ◌≡◌, refl, ◌∙◌, ap, sym, ◌⊎◌, Bool, true, false, inl, inr, arith, ◌==◌,
  Bool-cases,
}
use os2025_assignment.Log.{Log, Header, install_trans, write_head, emptied}
use os2025_assignment.Log.Replay.{pick, pick-ext, pick-pick, pick-blocks, pick-miss}
use os2025_assignment.Log.Steps.{
  Homes, log_copy, install_loop-disk, install_loop-Kept, writes, writes-le, writes-off, writes-all,
  Kept, apart,
}

pub not_zero : (p n q : ℕ) → n < p → q ≡ p - n → (q == 0) ≡ false
not_zero p n q h e = ground arith

pub still_off : (p n q : ℕ) → p ≡ 0 → q ≡ p - n → (q == 0) ≡ true
still_off p n q h e = ground arith

module _ {Data : Type 0} where
  -- the blocks that a disk stands for when the log starts at `start` and has the header `h`
  abbrev pub view : ℕ → Header → (ℕ → Data) → ℕ → Data
  view start h disk b = pick h.block b (λ i. disk (start + i + 1)) h.n 0 (disk b)

  -- the file system that recovery would find
  abbrev pub recovered : Log Data → ℕ → Data
  recovered s = view s.start s.head s.disk

  -- The header on the disk is that in memory, and the cache has the copies that the disk has.
  pub record IsWritten (u : Log Data) : Type 0 where
    pub count : u.head.n ≡ u.lh.n
    pub blocks : (i : ℕ) → i < u.lh.n → u.lh.block i ≡ u.head.block i
    pub homes : Homes u u.lh.n
    pub fits : u.lh.n < u.size
    pub copies : (i : ℕ) → i < u.lh.n → log_copy u i ≡ u.disk (u.start + i + 1)

  -- the end of `commit` and of `recover_from_log`
  abbrev pub install : Bool → Log Data → Log Data
  install r u = write_head (emptied (install_trans r u))

  pub kept : (r : Bool) (u : Log Data) → Kept u (install_trans r u) u.lh.n
  unfolding install_trans
  kept r u = install_loop-Kept r u.lh.n 0 u

  module _ (r : Bool) (u : Log Data) (c : IsWritten u) where
    -- the disk after `install_trans`, in terms of the disk before
    installed :
        (b : ℕ)
        → (install_trans r u).disk b
          ≡ pick u.head.block b (λ i. u.disk (u.start + i + 1)) (writes u.lh.n u.power) 0 (u.disk b)
    unfolding install_trans
    installed b =
        install_loop-disk r u.lh.n 0 b u (λ i l. c.homes i (omega arith)) (omega (arith, c.fits))
        ∙ pick-ext u.lh.block b (log_copy u) (λ i. u.disk (u.start + i + 1)) (writes u.lh.n u.power)
            0 (u.disk b) (λ i a l. c.copies i (omega (arith, writes-le u.lh.n u.power)))
        ∙ pick-blocks u.head.block b u.lh.block (λ i. u.disk (u.start + i + 1))
            (writes u.lh.n u.power) 0 (u.disk b)
            (λ i a l. c.blocks i (omega (arith, writes-le u.lh.n u.power)))

    -- the log itself stays
    installed_copy :
        (i : ℕ) → i < u.lh.n → (install_trans r u).disk (u.start + i + 1) ≡ u.disk (u.start + i + 1)
    installed_copy i l =
        installed (u.start + i + 1)
        ∙ pick-miss u.head.block (u.start + i + 1) (λ i. u.disk (u.start + i + 1))
            (writes u.lh.n u.power) 0 (u.disk (u.start + i + 1))
            (λ j a m e.
              apart u.start u.size (u.lh.block j) i
                (c.homes j (omega (arith, writes-le u.lh.n u.power))) (omega (arith, c.fits))
                (sym (c.blocks j (omega (arith, writes-le u.lh.n u.power)) ∙ e)))

    -- the block that recovery finds
    whole :
        (b : ℕ)
        → pick u.head.block b (λ i. u.disk (u.start + i + 1)) u.lh.n 0 (u.disk b) ≡ recovered u b
    whole b =
        ap (λ n. pick u.head.block b (λ i. u.disk (u.start + i + 1)) n 0 (u.disk b)) (sym (c.count))

    -- When power is left behind the loop, all entries are installed.
    installed_all : (b : ℕ) → u.lh.n < u.power → (install_trans r u).disk b ≡ recovered u b
    installed_all b more =
        installed b
        ∙ ap (λ n. pick u.head.block b (λ i. u.disk (u.start + i + 1)) n 0 (u.disk b))
            (writes-all u.lh.n u.power (omega arith))
        ∙ whole b

    -- Wherever the power ends, recovery finds the same file system.
    pub install-recovered : (b : ℕ) → recovered (install r u) b ≡ recovered u b
    unfolding write_head pick
    install-recovered b = elim (Bool-cases ((install_trans r u).power == 0)) [
      | inl off ↦
          rw (off, (kept r u).head, (kept r u).start)
            (ap
                (λ n.
                  pick u.head.block b (λ i. (install_trans r u).disk (u.start + i + 1)) n 0
                    ((install_trans r u).disk b))
                (c.count)
              ∙ pick-ext u.head.block b (λ i. (install_trans r u).disk (u.start + i + 1))
                  (λ i. u.disk (u.start + i + 1)) u.lh.n 0 ((install_trans r u).disk b)
                  (λ i a l. installed_copy i (omega arith))
              ∙ ap (pick u.head.block b (λ i. u.disk (u.start + i + 1)) u.lh.n 0) (installed b)
              ∙ pick-pick u.head.block b (λ i. u.disk (u.start + i + 1)) (writes u.lh.n u.power)
                  u.lh.n 0 (u.disk b) (writes-le u.lh.n u.power)
              ∙ whole b)
      | inr on ↦ rw on (installed_all b (ground (arith, (kept r u).power)))
    ]

    -- With enough power, all is installed and the log on the disk is empty.
    pub install_complete :
        (b : ℕ)
        → u.lh.n < u.power
        → ((install r u).disk b ≡ recovered u b) × ((install r u).head.n ≡ 0)
    unfolding write_head
    install_complete b more = (
      installed_all b more,
      rw (not_zero u.power u.lh.n (install_trans r u).power more (kept r u).power) refl,
    )

  module _ (r : Bool) (u : Log Data) where
    module _ (h : Homes u u.lh.n) (l : u.lh.n < u.size) (off : u.power ≡ 0) where
      unchanged : (b : ℕ) → (install_trans r u).disk b ≡ u.disk b
      unfolding install_trans pick
      unchanged b =
          let g : ℕ → Data = λ m. pick u.lh.block b (log_copy u) m 0 (u.disk b) in
          install_loop-disk r u.lh.n 0 b u (λ i c. h i (omega arith)) (omega arith)
          ∙ ap (λ p. g (writes u.lh.n p)) off
          ∙ ap g (writes-off u.lh.n)

      -- Without power nothing changes on the disk.
      pub install-off : (b : ℕ) → recovered (install r u) b ≡ recovered u b
      unfolding write_head
      install-off b =
          let k = kept r u in
          let v = install_trans r u in
          rw (still_off u.power u.lh.n v.power off (k.power), k.head, k.start)
            (pick-ext u.head.block b (λ i. v.disk (u.start + i + 1)) (λ i. u.disk (u.start + i + 1))
                u.head.n 0 (v.disk b) (λ i a c. unchanged (u.start + i + 1))
              ∙ ap (pick u.head.block b (λ i. u.disk (u.start + i + 1)) u.head.n 0) (unchanged b))

    -- The header on the disk is the old one or empty.
    pub install-head : ((install r u).head ≡ u.head) ⊎ ((install r u).head.n ≡ 0)
    unfolding install_trans write_head
    install-head = elim (Bool-cases ((install_trans r u).power == 0)) [
      | inl off ↦ inl (rw off ((install_loop-Kept r u.lh.n 0 u).head))
      | inr on ↦ inr (rw on refl)
    ]

    -- The place of the log stays.
    pub install-place : ((install r u).start ≡ u.start) × ((install r u).size ≡ u.size)
    unfolding write_head
    install-place = ((kept r u).start, (kept r u).size)
