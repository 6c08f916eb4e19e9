-- ===== src/Sysfile/Ends.antt =====
-- Every system call ends the operations that it begins.
use os2025_assignment.Base.{ℕ, ◌+◌, ◌≡◌, refl, Option, none, some, List, arith}
use os2025_assignment.Str.{Bytes}
use os2025_assignment.Sysfile.{Sys}
use os2025_assignment.Sysfile.Names.{link_bad, sys_link}
use os2025_assignment.Sysfile.Paths.{unlink_bad, sys_unlink, make_node, sys_chdir}
use os2025_assignment.Sysfile.Balance.{Leaves, returns, balance}

module _ {W : Type 0} (junk before : Bytes) where
  link_bad-Leaves : (ip b : ℕ) (s : Sys W) → s.ops ≡ b + 1 → Leaves b (link_bad junk before ip s)
  unfolding link_bad
  link_bad-Leaves ip b s e = search balance depth 12

  pub sys_link-Leaves :
      (old new : Option (List ℕ)) (s : Sys W) → Leaves s.ops (sys_link junk before old new s)
  unfolding sys_link
  sys_link-Leaves none new s = returns refl
  sys_link-Leaves (some old) none s = returns refl
  sys_link-Leaves (some old) (some new) s = search (balance, link_bad-Leaves) depth 40

  unlink_bad-Leaves :
      (dp b : ℕ) (s : Sys W) → s.ops ≡ b + 1 → Leaves b (unlink_bad junk before dp s)
  unfolding unlink_bad
  unlink_bad-Leaves dp b s e = search balance depth 12

  pub sys_unlink-Leaves :
      (path : Option (List ℕ)) (s : Sys W) → Leaves s.ops (sys_unlink junk before path s)
  unfolding sys_unlink
  sys_unlink-Leaves none s = returns refl
  sys_unlink-Leaves (some path) s = search (balance, unlink_bad-Leaves) depth 40

  pub make_node-Leaves :
      (path : Option (List ℕ)) (kind major minor : ℕ) (s : Sys W)
      → Leaves s.ops (make_node junk before path kind major minor s)
  unfolding make_node
  make_node-Leaves none kind major minor s = returns (omega arith)
  make_node-Leaves (some path) kind major minor s = search balance depth 40

  pub sys_chdir-Leaves :
      (path : Option (List ℕ)) (s : Sys W) → Leaves s.ops (sys_chdir junk before path s)
  unfolding sys_chdir
  sys_chdir-Leaves none s = returns (omega arith)
  sys_chdir-Leaves (some path) s = search balance depth 40
