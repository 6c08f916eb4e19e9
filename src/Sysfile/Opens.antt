-- ===== src/Sysfile/Opens.antt =====
-- `sys_open`, `sys_close` and `sys_pipe` end the operations that they begin.
use os2025_assignment.Base.{
  ℕ, zero, suc, ◌+◌, ◌≡◌, refl, inl, inr, Bool, Option, none, some, Option-cases, List, ◌==◌,
}
use os2025_assignment.Str.{Bytes}
use os2025_assignment.File.{File, pipe, inode, device, unset, filealloc, fileclose}
use os2025_assignment.Sysfile.{
  Sys, fdalloc_loop, fdalloc, close_last, close_file, alloc_file, open_file,
}
use os2025_assignment.Sysfile.Paths.{open_inode, sys_open}
use os2025_assignment.Sysfile.Balance.{
  Leaves, LeavesBy, panics, returns, LeavesBy-opt, call_step, opt_call_step, if_step, balance,
}

-- operations open behind `open_inode`
abbrev left_open : ℕ → Option ℕ → ℕ
left_open b none = b
left_open b (some ip) = b + 1

module _ {W : Type 0} where
  fdalloc_loop-Leaves : (n fd f : ℕ) (s : Sys W) → Leaves s.ops (fdalloc_loop n fd f s)
  unfolding fdalloc_loop
  fdalloc_loop-Leaves zero fd f s = returns refl
  fdalloc_loop-Leaves (suc n) fd f s =
      if_step _ (s.ofile fd == 0) _ _ s (returns refl) (fdalloc_loop-Leaves n (fd + 1) f s)

  pub fdalloc-Leaves : (f : ℕ) (s : Sys W) → Leaves s.ops (fdalloc f s)
  unfolding fdalloc
  fdalloc-Leaves f s = fdalloc_loop-Leaves 16 0 f s

  module _ (pipeclose : ℕ → Bool → W → W) where
    close_last-Leaves : (ff : File) (s : Sys W) → Leaves s.ops (close_last pipeclose ff s)
    unfolding close_last
    close_last-Leaves ff s = by_kind ff.kind
      where
        by_kind : (k : _) → Leaves s.ops (close_last pipeclose (record ff { kind = k }) s)
        by_kind pipe = returns refl
        by_kind inode = search balance depth 12
        by_kind device = search balance depth 12
        by_kind unset = returns refl

    pub close_file-Leaves : (f : ℕ) (s : Sys W) → Leaves s.ops (close_file pipeclose f s)
    unfolding close_file
    close_file-Leaves f s = elim (Option-cases (fileclose f s.ftable)) [
      | inl e ↦ rw (close_file, e) panics
      | inr ((none, t), e) ↦ rw (close_file, e) (returns refl)
      | inr ((some ff, t), e) ↦ rw (close_file, e) (close_last-Leaves ff (record s { ftable = t }))
    ]

    pub open_file-Leaves : (s : Sys W) → Leaves s.ops (open_file pipeclose s)
    unfolding open_file alloc_file
    open_file-Leaves s = elim (Option-cases (filealloc s.ftable).0) [
      | inl e ↦ rw (open_file, alloc_file, e) (returns refl)
      | inr (f, e) ↦
          rw (open_file, alloc_file, e)
            (LeavesBy-opt _ (λ _. s.ops) (fdalloc f (record s { ftable = (filealloc s.ftable).1 }))
              _ (fdalloc-Leaves f (record s { ftable = (filealloc s.ftable).1 }))
              (λ s' e'.
                call_step (close_file pipeclose f) (close_file-Leaves f) s.ops _ s' _ e'
                  (λ _ s''. returns))
              (λ fd s' e'. returns e'))
    ]

  module _ (junk before : Bytes) where
    open_inode-LeavesBy :
        (b : ℕ) (path : List ℕ) (omode : ℕ) (s : Sys W)
        → s.ops ≡ b + 1
        → LeavesBy (left_open b) (open_inode junk before path omode s)
    unfolding open_inode
    open_inode-LeavesBy b path omode s e = search balance depth 40

    -- `sys_open` leaves as many operations open as were before it.
    pub sys_open-Leaves :
        (pipeclose : ℕ → Bool → W → W) (path : Option (List ℕ)) (omode : ℕ) (s : Sys W)
        → Leaves s.ops (sys_open junk before pipeclose path omode s)
    unfolding sys_open
    sys_open-Leaves pipeclose none omode s = returns refl
    sys_open-Leaves pipeclose (some path) omode s =
        LeavesBy-opt _ (left_open s.ops)
          (open_inode junk before path omode (record s { ops = s.ops + 1 })) _
          (open_inode-LeavesBy s.ops path omode (record s { ops = s.ops + 1 }) refl)
          (λ s' e. returns e)
          (λ ip s' e.
            search
              (
                balance,
                opt_call_step (open_file pipeclose) (open_file-Leaves pipeclose) (s.ops + 1),
              )
              depth 40)
