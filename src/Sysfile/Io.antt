-- ===== src/Sysfile/Io.antt =====
-- `sys_read`, `sys_write` and `sys_fstat` of kernel/sysfile.c: what they keep of the operations that
-- are open and of the references that are counted.
use os2025_assignment.Base.{
  ℕ, zero, suc, ◌+◌, ◌-◌, ◌≡◌, refl, sym, ap, ◌∙◌, inl, inr, Bool, true, false, not, Option, none,
  some, List, ltb, ◌/=◌, if◌then◌else◌, min, update, arith,
}
use os2025_assignment.Machine.{Cmd, Run, ok, panic, pure, and_then}
use os2025_assignment.File.{File, FileKind, unset, pipe, inode, device}
use os2025_assignment.Fs.{Fs}
use os2025_assignment.Fs.Content.{Stat, readi, writei}
use os2025_assignment.Fs.Inodes.{ilock, iunlock}
use os2025_assignment.Fs.Open.{
  Journal, under_log, ndev, advance, max_write, filestat, fileread, filewrite_loop, filewrite,
}
use os2025_assignment.Sysfile.{Sys, with_fs, with_journal, sys_read, sys_write, sys_fstat}
use os2025_assignment.Sysfile.Counts.{IsCounted-entry}
use os2025_assignment.Sysfile.Users.{Counted, argfd_lem}

-- If the run returns, the result and the state are as `Q` says.
pub data Ends {S : Type 0} {A : Type 0} (Q : A → S → Type 0) : Run S A → Type 0 where
  stops : Ends Q panic
  ends : {a : A} {s : S} → Q a s → Ends Q (ok a s)

module _ {S : Type 0} {B : Type 0} (Q : B → S → Type 0) where
  ends_any :
      {A : Type 0} (r : Run S A) (k : A → Cmd S B)
      → ((a : A) (s : S) → Ends Q (k a s))
      → Ends Q (and_then r k)
  ends_any panic k h = stops
  ends_any (ok a s) k h = h a s

  ends_bind :
      {A : Type 0} (P : A → S → Type 0) (r : Run S A) (k : A → Cmd S B)
      → Ends P r
      → ((a : A) (s : S) → P a s → Ends Q (k a s))
      → Ends Q (and_then r k)
  ends_bind P panic k e h = stops
  ends_bind P (ok a s) k (ends p) h = h a s p

  ends_if :
      (t : Bool) (m m' : Cmd S B) (s : S)
      → Ends Q (m s)
      → Ends Q (m' s)
      → Ends Q ((if t then m else m') s)
  ends_if true m m' s h h' = h
  ends_if false m m' s h h' = h'

-- The file has the references and the kind of `f`.
abbrev pub IsMoved : File → File → Type 0
IsMoved f g = (g.ref ≡ f.ref) × (g.kind ≡ f.kind)

module _ {B : Type 0} (Q : B → Journal → Type 0) where
  ends_fs :
      {A : Type 0} (j : Journal) (r : Run Fs A) (k : A → Cmd Journal B)
      → ((a : A) (fs : Fs) → Ends Q (k a (record j { fs = fs })))
      → Ends Q (and_then (under_log j r) k)
  ends_fs j panic k h = stops
  ends_fs j (ok a fs) k h = h a fs

module _ (other : FileKind → Cmd Fs (Option ℕ)) (has : ℕ → Bool) where
  abbrev FileRead : File → (Option ℕ × File × List (ℕ × ℕ)) → Fs → Type 0
  FileRead f r s = IsMoved f (r.1)

  read_done :
      (r : Option ℕ) (g : File) (l : List (ℕ × ℕ)) (t : Fs)
      → Ends (FileRead g) (
          (elim r as (λ _. Cmd Fs (Option ℕ × File × List (ℕ × ℕ))) [
            | none ↦ pure (none, g, l)
            | some k ↦ pure (some k, advance g k, l)
          ])
            t)
  read_done none g l t = ends (refl, refl)
  read_done (some k) g l t = ends (refl, refl)

  fileread_kind :
      (takes : ℕ → ℕ → Bool) (k : FileKind) (f : File) (addr n : ℕ) (s : Fs)
      → Ends
          (FileRead (record f { kind = k }))
          (fileread other has takes (record f { kind = k }) addr n s)
  unfolding fileread
  fileread_kind takes unset f addr n s = ends_if _ (not f.readable) _ _ s (ends (refl, refl)) stops
  fileread_kind takes pipe f addr n s =
      ends_if _ (not f.readable) _ _ s (ends (refl, refl))
        (ends_any _ (other pipe s) _ λ r t. ends (refl, refl))
  fileread_kind takes device f addr n s = ends_if _ (not f.readable) _ _ s (ends (refl, refl)) (
      ends_if _ (not (ltb f.major ndev)) _ _ s (ends (refl, refl)) (
        ends_if _ (not (has f.major)) _ _ s (ends (refl, refl))
          (ends_any _ (other device s) _ λ r t. ends (refl, refl))))
  fileread_kind takes inode f addr n s = ends_if _ (not f.readable) _ _ s (ends (refl, refl)) (
      ends_any _ (ilock f.ip s) _ λ _ s1. ends_any _ (readi takes f.ip addr f.off n s1) _ λ r s2.
        ends_any _ (iunlock f.ip s2) _ λ _ s3. read_done (r.0) (record f { kind = inode }) (r.1) s3)

  fileread_lem :
      (takes : ℕ → ℕ → Bool) (f : File) (addr n : ℕ) (s : Fs)
      → Ends (FileRead f) (fileread other has takes f addr n s)
  fileread_lem takes f addr n s = fileread_kind takes f.kind f addr n s

module _ (copyin : ℕ → ℕ → Option (ℕ → ℕ)) where
  -- every transaction is ended, and the file keeps its references
  abbrev FileWritten : {A : Type 0} → ℕ → File → A × File → Journal → Type 0
  FileWritten ops f r j = (j.ops ≡ ops) × IsMoved f (r.1)

  filewrite_loop_lem :
      (fuel ops : ℕ) (f0 f : File) (addr i n : ℕ) (j : Journal)
      → j.ops ≡ ops
      → IsMoved f0 f
      → Ends (FileWritten ops f0) (filewrite_loop copyin fuel f addr i n j)
  unfolding filewrite_loop
  filewrite_loop_lem zero ops f0 f addr i n j e m = ends (e, m)
  filewrite_loop_lem (suc fuel) ops f0 f addr i n j e m =
      ends_if _ (not (ltb i n)) _ _ j (ends (e, m)) (
        ends_fs _ (record j { ops = j.ops + 1; begun = j.begun + 1 }) (ilock f.ip j.fs) _
          λ _ fs1.
            ends_fs _ (record j { fs = fs1; ops = j.ops + 1; begun = j.begun + 1 })
              (writei copyin f.ip (addr + i) f.off (min (n - i) max_write) fs1) _
              λ r fs2.
                ends_fs _ (record j { fs = fs2; ops = j.ops + 1; begun = j.begun + 1 })
                  (iunlock f.ip fs2) _
                  λ _ fs3.
                    behind r (record { fs = fs3; ops = j.ops + 1 - 1; begun = j.begun + 1 })
                      (omega arith)
                      λ k u q. filewrite_loop_lem fuel ops f0 (advance f k) addr (i + k) n u q m)
    where
      behind :
          (r : Option ℕ) (t : Journal)
          → t.ops ≡ ops
          → ((k : ℕ) (u : Journal)
              → u.ops ≡ ops
              → Ends
                  (FileWritten ops f0)
                  (filewrite_loop copyin fuel (advance f k) addr (i + k) n u))
          → Ends (FileWritten ops f0) (
              (elim r as (λ _. Cmd Journal (ℕ × File)) [
                | none ↦ pure (i, f)
                | some k ↦
                    if k /= min (n - i) max_write
                    then pure (i, advance f k)
                    else filewrite_loop copyin fuel (advance f k) addr (i + k) n
              ])
                t)
      behind none t q rest = ends (q, m)
      behind (some k) t q rest =
          ends_if _ (k /= min (n - i) max_write) _ _ t (ends (q, m)) (rest k t q)

  filewrite_kind :
      (other : FileKind → Cmd Fs (Option ℕ)) (has : ℕ → Bool) (k : FileKind) (f : File) (addr n : ℕ)
      (j : Journal)
      → Ends
          (FileWritten j.ops (record f { kind = k }))
          (filewrite copyin other has (record f { kind = k }) addr n j)
  unfolding filewrite
  filewrite_kind other has unset f addr n j =
      ends_if _ (not f.writable) _ _ j (ends (refl, (refl, refl))) stops
  filewrite_kind other has pipe f addr n j =
      ends_if _ (not f.writable) _ _ j (ends (refl, (refl, refl)))
        (ends_fs _ j (other pipe j.fs) _ λ r fs. ends (refl, (refl, refl)))
  filewrite_kind other has device f addr n j =
      ends_if _ (not f.writable) _ _ j (ends (refl, (refl, refl))) (
        ends_if _ (not (ltb f.major ndev)) _ _ j (ends (refl, (refl, refl))) (
          ends_if _ (not (has f.major)) _ _ j (ends (refl, (refl, refl)))
            (ends_fs _ j (other device j.fs) _ λ r fs. ends (refl, (refl, refl)))))
  filewrite_kind other has inode f addr n j =
      ends_if _ (not f.writable) _ _ j (ends (refl, (refl, refl))) (
        ends_bind _ _ (filewrite_loop copyin (n + 1) (record f { kind = inode }) addr 0 n j) _
          (filewrite_loop_lem (n + 1) j.ops (record f { kind = inode }) (record f { kind = inode })
            addr 0 n j refl (refl, refl))
          λ r t q. ends q)

  filewrite_lem :
      (other : FileKind → Cmd Fs (Option ℕ)) (has : ℕ → Bool) (f : File) (addr n : ℕ) (j : Journal)
      → Ends (FileWritten j.ops f) (filewrite copyin other has f addr n j)
  filewrite_lem other has f addr n j = filewrite_kind other has f.kind f addr n j

module _ {W : Type 0} where
  -- The call ends what it begins, and the references stay counted.
  abbrev pub Kept : {A : Type 0} → Sys W → A → Sys W → Type 0
  Kept s r s' = (s'.ops ≡ s.ops) × ((others : ℕ → ℕ) → Counted others s → Counted others s')

  -- an entry whose file has moved
  Kept-entry :
      (s : Sys W) (f ops : ℕ) (g : File) (fs : Fs) {A : Type 0} (a : A)
      → ops ≡ s.ops
      → IsMoved (s.ftable f) g
      → Ends (Kept s) (ok a (record s { ftable = update s.ftable f g; fs = fs; ops = ops }))
  Kept-entry s f ops g fs a e (r, k) = ends (
    e,
    λ others c.
        IsCounted-entry others others s.ofile s.ftable f g c (ap (λ x. x + others f) (sym r))
          (λ h ne. refl) (λ z. k ∙ c.clean f (sym r ∙ z)),
  )

  module _ (other : FileKind → Cmd Fs (Option ℕ)) (has : ℕ → Bool) where
    pub sys_read_lem :
        (takes : ℕ → ℕ → Bool) (fd p n : ℕ) (s : Sys W)
        → Ends (Kept s) (sys_read other has takes fd p n s)
    unfolding sys_read
    sys_read_lem takes fd p n s = elim (argfd_lem fd s) [
      | inl e ↦ rw (sys_read, e) (ends (refl, λ others c. c))
      | inr (f, e, _, _) ↦
          rw (sys_read, e)
            (behind f (fileread other has takes (s.ftable f) p n s.fs)
              (fileread_lem other has takes (s.ftable f) p n s.fs))
    ]
      where
        behind :
            (f : ℕ) (r : Run Fs (Option ℕ × File × List (ℕ × ℕ)))
            → Ends (FileRead other has (s.ftable f)) r
            → Ends {A = Option ℕ × List (ℕ × ℕ)} (Kept s) (
                and_then
                  (with_fs s r)
                  λ a t. ok (a.0, a.2) (record t { ftable = update t.ftable f (a.1) }))
        behind f panic h = stops
        behind f (ok a fs) (ends m) = Kept-entry s f s.ops (a.1) fs (a.0, a.2) refl m

    pub sys_write_lem :
        (copyin : ℕ → ℕ → Option (ℕ → ℕ)) (fd p n : ℕ) (s : Sys W)
        → Ends (Kept s) (sys_write other has copyin fd p n s)
    unfolding sys_write
    sys_write_lem copyin fd p n s = elim (argfd_lem fd s) [
      | inl e ↦ rw (sys_write, e) (ends (refl, λ others c. c))
      | inr (f, e, _, _) ↦
          let j : Journal = record { fs = s.fs; ops = s.ops; begun = 0 } in
          rw (sys_write, e)
            (behind f (filewrite copyin other has (s.ftable f) p n j)
              (filewrite_lem copyin other has (s.ftable f) p n j))
    ]
      where
        behind :
            (f : ℕ) (r : Run Journal (Option ℕ × File))
            → Ends (FileWritten copyin s.ops (s.ftable f)) r
            → Ends (Kept s) (
                and_then
                  (with_journal s r)
                  λ a t. ok (a.0) (record t { ftable = update t.ftable f (a.1) }))
        behind f panic h = stops
        behind f (ok a j) (ends (e, m)) = Kept-entry s f j.ops (a.1) j.fs (a.0) e m

  pub sys_fstat_lem : (copies : Bool) (fd : ℕ) (s : Sys W) → Ends (Kept s) (sys_fstat copies fd s)
  unfolding sys_fstat
  sys_fstat_lem copies fd s = elim (argfd_lem fd s) [
    | inl e ↦ rw (sys_fstat, e) (ends (refl, λ others c. c))
    | inr (f, e, _, _) ↦ rw (sys_fstat, e) (behind (filestat (s.ftable f) copies s.fs))
  ]
    where
      behind : (r : Run Fs (Option Stat)) → Ends (Kept s) (with_fs s r)
      behind panic = stops
      behind (ok a fs) = ends (refl, λ others c. c)
