-- ===== src/Sysfile/Keeping.antt =====
-- Steps of the system calls of kernel/sysfile.c that keep the references of the file table counted.
use os2025_assignment.Base.{ℕ, Bool, true, false, Option, none, some, if◌then◌else◌}
use os2025_assignment.Machine.{Cmd, Run, Void, when, ok, panic, and_then}
use os2025_assignment.Fs.{Fs}
use os2025_assignment.Sysfile.{Sys, with_fs}
use os2025_assignment.Sysfile.Counts.{IsCounted}

-- If the call returns, the references are counted.
pub data Keeps {W : Type 0} {A : Type 0} (others : ℕ → ℕ) : Run (Sys W) A → Type 0 where
  panics : Keeps others panic
  keeps : {a : A} {s : Sys W} → IsCounted others s.ofile s.ftable → Keeps others (ok a s)

module _ {W : Type 0} {B : Type 0} (others : ℕ → ℕ) where
  pub keep_step :
      {A : Type 0} (s : Sys W) (r : Run Fs A) (k : A → Cmd (Sys W) B)
      → ((x : A) (fs : Fs) → Keeps others (k x (record s { fs = fs })))
      → Keeps others (and_then (with_fs s r) k)
  keep_step s panic k h = panics
  keep_step s (ok x fs) k h = h x fs

  pub keep_opt :
      {A : Type 0} (s : Sys W) (r : Run Fs (Option A)) (k : Option A → Cmd (Sys W) B)
      → ((fs : Fs) → Keeps others (k none (record s { fs = fs })))
      → ((x : A) (fs : Fs) → Keeps others (k (some x) (record s { fs = fs })))
      → Keeps others (and_then (with_fs s r) k)
  keep_opt s panic k h h' = panics
  keep_opt s (ok none fs) k h h' = h fs
  keep_opt s (ok (some x) fs) k h h' = h' x fs

  pub keep_if :
      (t : Bool) (m m' : Cmd (Sys W) B) (s : Sys W)
      → Keeps others (m s)
      → Keeps others (m' s)
      → Keeps others ((if t then m else m') s)
  keep_if true m m' s h h' = h
  keep_if false m m' s h h' = h'

  pub keep_when :
      (t : Bool) (m : Cmd (Sys W) Void) (k : Void → Cmd (Sys W) B) (s : Sys W)
      → Keeps others (and_then (m s) k)
      → Keeps others (k tt s)
      → Keeps others (and_then (when t m s) k)
  keep_when true m k s h h' = h
  keep_when false m k s h h' = h'

pub ruleset keeping = (keep_opt, keep_step, keep_if, keep_when, keeps)
