-- ===== src/Sysfile/Balance.antt =====
-- What a call leaves behind a call of the file system, whatever that does.
use os2025_assignment.Base.{
  ℕ, ◌+◌, ◌-◌, arith, ◌≡◌, ◌∙◌, Bool, true, false, Option, none, some, if◌then◌else◌,
}
use os2025_assignment.Machine.{Cmd, Run, Void, when, ok, panic, and_then}
use os2025_assignment.Fs.{Fs}
use os2025_assignment.Sysfile.{Sys, with_fs}

-- If the call returns, as many operations are open behind it as `f` says of its result.
pub data LeavesBy {W : Type 0} {A : Type 0} (f : A → ℕ) : Run (Sys W) A → Type 0 where
  panics : LeavesBy f panic
  returns : {a : A} {s : Sys W} → s.ops ≡ f a → LeavesBy f (ok a s)

-- If the call returns, `b` operations are open behind it.
abbrev pub Leaves : {W : Type 0} {A : Type 0} → ℕ → Run (Sys W) A → Type 0
Leaves b r = LeavesBy (λ _. b) r

module _ {W : Type 0} {B : Type 0} (f : B → ℕ) where
  pub fs_step :
      {A : Type 0} (s : Sys W) (r : Run Fs A) (k : A → Cmd (Sys W) B)
      → ((x : A) (fs : Fs) → LeavesBy f (k x (record s { fs = fs })))
      → LeavesBy f (and_then (with_fs s r) k)
  fs_step s panic k h = panics
  fs_step s (ok x fs) k h = h x fs

  -- with a result that may be -1 or NULL
  pub opt_step :
      {A : Type 0} (s : Sys W) (r : Run Fs (Option A)) (k : Option A → Cmd (Sys W) B)
      → ((fs : Fs) → LeavesBy f (k none (record s { fs = fs })))
      → ((x : A) (fs : Fs) → LeavesBy f (k (some x) (record s { fs = fs })))
      → LeavesBy f (and_then (with_fs s r) k)
  opt_step s panic k h h' = panics
  opt_step s (ok none fs) k h h' = h fs
  opt_step s (ok (some x) fs) k h h' = h' x fs

  pub if_step :
      (t : Bool) (m m' : Cmd (Sys W) B) (s : Sys W)
      → LeavesBy f (m s)
      → LeavesBy f (m' s)
      → LeavesBy f ((if t then m else m') s)
  if_step true m m' s h h' = h
  if_step false m m' s h h' = h'

  pub when_step :
      (t : Bool) (m : Cmd (Sys W) Void) (k : Void → Cmd (Sys W) B) (s : Sys W)
      → LeavesBy f (and_then (m s) k)
      → LeavesBy f (k tt s)
      → LeavesBy f (and_then (when t m s) k)
  when_step true m k s h h' = h
  when_step false m k s h h' = h'

  pub LeavesBy-opt :
      {A : Type 0} (g : Option A → ℕ) (r : Run (Sys W) (Option A)) (k : Option A → Cmd (Sys W) B)
      → LeavesBy g r
      → ((s : Sys W) → s.ops ≡ g none → LeavesBy f (k none s))
      → ((x : A) (s : Sys W) → s.ops ≡ g (some x) → LeavesBy f (k (some x) s))
      → LeavesBy f (and_then r k)
  LeavesBy-opt g panic k h h' h'' = panics
  LeavesBy-opt g (ok none s) k (returns e) h' h'' = h' s e
  LeavesBy-opt g (ok (some x) s) k (returns e) h' h'' = h'' x s e

  pub LeavesBy-bind :
      {A : Type 0} (g : A → ℕ) (r : Run (Sys W) A) (k : A → Cmd (Sys W) B)
      → LeavesBy g r
      → ((x : A) (s : Sys W) → s.ops ≡ g x → LeavesBy f (k x s))
      → LeavesBy f (and_then r k)
  LeavesBy-bind g panic k h h' = panics
  LeavesBy-bind g (ok a s) k (returns e) h' = h' a s e

-- behind a call that ends what it begins
module _ {W : Type 0} {A : Type 0} (c : Cmd (Sys W) A)
    (ends : (s : Sys W) → Leaves s.ops (c s)) where
  pub call_step :
      (b : ℕ) {B : Type 0} (f : B → ℕ) (s : Sys W) (k : A → Cmd (Sys W) B)
      → s.ops ≡ b
      → ((x : A) (s' : Sys W) → s'.ops ≡ b → LeavesBy f (k x s'))
      → LeavesBy f (and_then (c s) k)
  call_step b f s k e h = LeavesBy-bind f (λ _. s.ops) (c s) k (ends s) (λ x s' e'. h x s' (e' ∙ e))

module _ {W : Type 0} {A : Type 0} (c : Cmd (Sys W) (Option A))
    (ends : (s : Sys W) → Leaves s.ops (c s)) where
  pub opt_call_step :
      (b : ℕ) {B : Type 0} (f : B → ℕ) (s : Sys W) (k : Option A → Cmd (Sys W) B)
      → s.ops ≡ b
      → ((s' : Sys W) → s'.ops ≡ b → LeavesBy f (k none s'))
      → ((x : A) (s' : Sys W) → s'.ops ≡ b → LeavesBy f (k (some x) s'))
      → LeavesBy f (and_then (c s) k)
  opt_call_step b f s k e h h' =
      LeavesBy-opt f (λ _. s.ops) (c s) k (ends s) (λ s' e'. h s' (e' ∙ e))
        (λ x s' e'. h' x s' (e' ∙ e))

-- `end_op`
pub one_less : (n b : ℕ) → n ≡ b + 1 → n - 1 ≡ b
one_less n b e = omega arith

pub ruleset balance = (opt_step, fs_step, if_step, when_step, returns, one_less)
