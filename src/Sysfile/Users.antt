-- ===== src/Sysfile/Users.antt =====
-- `sys_dup`, `sys_close` and `sys_pipe` of kernel/sysfile.c return, and the file table still counts
-- the references. So does `open_file`, which `sys_open` opens a file with.
use os2025_assignment.Base.{
  ℕ, ◌+◌, ◌-◌, ◌<◌, ltb, ◌==◌, ==_self, ◌≡◌, ◌⊎◌, refl, sym, ap, inl, inr, Bool, Bool-cases, Option,
  none, some, update, update_self, arith,
}
use mathlib.Core.Path.{subst}
use os2025_assignment.Machine.{Cmd, Run, ok, panic, and_then}
use os2025_assignment.File.{File, FileKind, pipe, unset, inode, device}
use os2025_assignment.Fs.{Fs}
use os2025_assignment.Fs.Inodes.{iput}
use os2025_assignment.Sysfile.{
  Sys, nofile, argfd, alloc_file, dup_file, close_last, close_file, open_file, sys_dup, sys_close,
}
use os2025_assignment.Sysfile.Slots.{with_file, fdalloc_lem, filealloc_lem}
use os2025_assignment.Sysfile.Counts.{bump, IsCounted, IsCounted-take, IsCounted-drop}
use os2025_assignment.Sysfile.Shares.{
  IsCounted-with_file, IsCounted-filedup, IsCounted-fileclose, IsCounted-held, IsPlain,
}

-- The call returns, with what `P` says of its result and the state it leaves.
pub data Gives {W : Type 0} {A : Type 0} (P : A → Sys W → Type 0) : Run (Sys W) A → Type 0 where
  gives : {a : A} {s : Sys W} (h : P a s) → Gives P (ok a s)

pub Gives-bind :
    {W A B : Type 0} (P : A → Sys W → Type 0) (Q : B → Sys W → Type 0) (r : Run (Sys W) A)
    (k : A → Cmd (Sys W) B)
    → Gives P r
    → ((a : A) (s : Sys W) → P a s → Gives Q (k a s))
    → Gives Q (and_then r k)
Gives-bind P Q (ok a s) k (gives h) h' = h' a s h
Gives-bind P Q panic k h h' = elim h [ ]

pub Gives-imp :
    {W A : Type 0} (P Q : A → Sys W → Type 0) (r : Run (Sys W) A)
    → Gives P r
    → ((a : A) (s : Sys W) → P a s → Q a s)
    → Gives Q r
Gives-imp P Q (ok a s) (gives h) h' = gives (h' a s h)
Gives-imp P Q panic h h' = elim h [ ]

-- the references of the state, `others` of them held elsewhere
abbrev pub Counted : {W : Type 0} → (ℕ → ℕ) → Sys W → Type 0
Counted others s = IsCounted others s.ofile s.ftable

module _ {W : Type 0} where
  -- a descriptor that is found is open, and its entry has a reference
  pub argfd_lem :
      (fd : ℕ) (s : Sys W)
      → (argfd fd s ≡ ok none s)
        ⊎ ((f : ℕ) × (argfd fd s ≡ ok (some f) s) × (fd < nofile) × (s.ofile fd ≡ f + 1))
  unfolding argfd
  argfd_lem fd s = elim (Bool-cases (ltb fd nofile)) [
    | inl a ↦ elim (Bool-cases (s.ofile fd == 0)) [
      | inl b ↦ inl (rw (argfd, a, b) refl)
      | inr b ↦ inr (s.ofile fd - 1, rw (argfd, a, b) refl, ground (arith, a), ground (arith, b))
    ]
    | inr a ↦ inl (rw (argfd, a) refl)
  ]

  -- what `sys_dup` of `fd` leaves: nothing new, or a new descriptor for the same file
  abbrev pub Duped : (ℕ → ℕ) → ℕ → Sys W → Option ℕ → Sys W → Type 0
  Duped others fd s none s' = s' ≡ s
  Duped others fd s (some k) s' =
      (s.ofile k ≡ 0) × (s'.ofile ≡ update s.ofile k (s.ofile fd)) × Counted others s'

  -- If the entries of the file table count their references, `sys_dup` returns. Either nothing has
  -- changed, or a descriptor that was free stands for the same file and the references are counted.
  pub sys_dup-IsCounted :
      (others : ℕ → ℕ) (fd : ℕ) (s : Sys W)
      → Counted others s
      → Gives (Duped others fd s) (sys_dup fd s)
  unfolding sys_dup
  sys_dup-IsCounted others fd s c = elim (argfd_lem fd s) [
    | inl e ↦ rw (sys_dup, e) (gives refl)
    | inr (f, e, h, o) ↦ elim (fdalloc_lem f s) [
      | inl (e', _) ↦ rw (sys_dup, e, e') (gives refl)
      | inr (k, e', l, z, _) ↦
          let held = IsCounted-held others s.ofile s.ftable f fd c h o in
          let (t', e2, c') = IsCounted-filedup others s.ofile s.ftable f c held in
          rw (sys_dup, e, e', dup_file, e2)
            (gives (z, ap (update s.ofile k) (sym o), IsCounted-take others s.ofile t' f k c' l z))
    ]
  ]

  pub alloc_file_lem :
      (others : ℕ → ℕ) (s : Sys W)
      → Counted others s
      → (alloc_file s ≡ ok none s)
        ⊎ ((f : ℕ) × (alloc_file s ≡ ok (some f) (record s { ftable = with_file s.ftable f }))
            × ((s.ftable f).ref ≡ 0)
            × ((s.ftable f).kind ≡ unset)
            × IsCounted (bump f others) s.ofile (with_file s.ftable f))
  unfolding alloc_file
  alloc_file_lem others s c = elim (filealloc_lem s.ftable) [
    | inl e ↦ inl (rw (alloc_file, e) refl)
    | inr (f, e, h, z) ↦ inr (
      f,
      rw (alloc_file, e) refl,
      z,
      c.clean f z,
      IsCounted-with_file others s.ofile s.ftable f c z,
    )
  ]

-- The inode of a file can be given back.
abbrev pub CanPut : File → Fs → Type 0
CanPut ff fs = elim ff.kind [
  | unset ↦ Unit
  | pipe ↦ Unit
  | _ ↦ (fs' : Fs) × (iput ff.ip fs ≡ ok tt fs')
]

pub CanPut-unset : (ff : File) (fs : Fs) → ff.kind ≡ unset → CanPut ff fs
CanPut-unset ff fs e = subst (λ k. CanPut (record ff { kind = k }) fs) (sym e) tt

module _ {W : Type 0} (pipeclose : ℕ → Bool → W → W) where
  close_last_lem :
      (ff : File) (s : Sys W)
      → CanPut ff s.fs
      → Gives (λ _ s'. (s'.ofile ≡ s.ofile) × (s'.ftable ≡ s.ftable)) (close_last pipeclose ff s)
  unfolding close_last
  close_last_lem ff s h = by_kind ff.kind h
    where
      by_kind :
          (k : FileKind)
          → CanPut (record ff { kind = k }) s.fs
          → Gives
              (λ _ s'. (s'.ofile ≡ s.ofile) × (s'.ftable ≡ s.ftable))
              (close_last pipeclose (record ff { kind = k }) s)
      by_kind unset h' = gives (refl, refl)
      by_kind pipe h' = gives (refl, refl)
      by_kind inode (fs, e) = rw (close_last, e) (gives (refl, refl))
      by_kind device (fs, e) = rw (close_last, e) (gives (refl, refl))

  pub close_file_lem :
      (others o : ℕ → ℕ) (f : ℕ) (s : Sys W)
      → IsCounted (bump f others) o s.ftable
      → CanPut (s.ftable f) s.fs
      → Gives
          (λ _ s'.
            (s'.ofile ≡ s.ofile)
            × IsCounted others o s'.ftable
            × ((g : ℕ) → IsPlain (s.ftable g) → IsPlain (s'.ftable g)))
          (close_file pipeclose f s)
  unfolding close_file
  close_file_lem others o f s c h =
      let (r, t', e, c', plain, last) = IsCounted-fileclose others o s.ftable f c in
      elim last [
        | inl n ↦ rw (close_file, e, n) (gives (refl, c', plain))
        | inr l ↦
            rw (close_file, e, l)
              (Gives-imp _ _ (close_last pipeclose (s.ftable f) (record s { ftable = t' }))
                (close_last_lem (s.ftable f) (record s { ftable = t' }) h)
                λ _ s' (eo, et). (eo, rw et c', rw et plain))
      ]

  -- what `sys_close` of `fd` leaves
  abbrev pub Closed : (ℕ → ℕ) → ℕ → Sys W → Option ℕ → Sys W → Type 0
  Closed others fd s none s' = s' ≡ s
  Closed others fd s (some _) s' = (s'.ofile ≡ update s.ofile fd 0) × Counted others s'

  -- If the entries of the file table count their references and the inode of the file can be given
  -- back, `sys_close` returns. Either nothing has changed, or the descriptor is free and the
  -- references are counted.
  pub sys_close-IsCounted :
      (others : ℕ → ℕ) (fd : ℕ) (s : Sys W)
      → Counted others s
      → ((f : ℕ) → s.ofile fd ≡ f + 1 → CanPut (s.ftable f) s.fs)
      → Gives (Closed others fd s) (sys_close pipeclose fd s)
  unfolding sys_close
  sys_close-IsCounted others fd s c can = elim (argfd_lem fd s) [
    | inl e ↦ rw (sys_close, e) (gives refl)
    | inr (f, e, h, o) ↦
        rw (sys_close, e)
          (Gives-bind _ _ (close_file pipeclose f (record s { ofile = update s.ofile fd 0 })) _
            (close_file_lem others (update s.ofile fd 0) f
              (record s { ofile = update s.ofile fd 0 })
              (IsCounted-drop others s.ofile s.ftable f fd c h o) (can f o))
            λ _ s' (eo, c', _). gives (eo, rw eo c'))
  ]

  -- what `open_file` leaves: nothing new, or a file with one reference and a descriptor for it
  abbrev pub Opened : (ℕ → ℕ) → Sys W → Option (ℕ × ℕ) → Sys W → Type 0
  Opened others s none s' = (s'.ofile ≡ s.ofile) × Counted others s'
  Opened others s (some (f, fd)) s' =
      (s.ofile fd ≡ 0)
      × (s'.ofile ≡ update s.ofile fd (f + 1))
      × ((s'.ftable f).ref ≡ 1)
      × Counted others s'

  -- `open_file` (`filealloc`, `fdalloc` and, if that fails, `fileclose`) returns, if the entries of
  -- the file table count their references. They do so afterwards, and either the descriptors are as
  -- they were, or one that was free stands for a file with one reference.
  pub open_file-IsCounted :
      (others : ℕ → ℕ) (s : Sys W)
      → Counted others s
      → Gives (Opened others s) (open_file pipeclose s)
  unfolding open_file
  open_file-IsCounted others s c = elim (alloc_file_lem others s c) [
    | inl e ↦ rw (open_file, e) (gives (refl, c))
    | inr (f, e, _, u, c') ↦
        let s1 = record s { ftable = with_file s.ftable f } in
        elim (fdalloc_lem f s1) [
          | inl (e', _) ↦
              rw (open_file, e, e')
                (Gives-bind _ _ (close_file pipeclose f s1) _
                  (close_file_lem others s.ofile f s1 c'
                    (rw (==_self f) (CanPut-unset (record (s.ftable f) { ref = 1 }) s.fs u)))
                  λ _ s' (eo, c2, _). gives (eo, rw eo c2))
          | inr (k, e', l, z, _) ↦
              rw (open_file, e, e')
                (gives (
                  z,
                  refl,
                  (ap (λ (x : File). x.ref)
                      (update_self s.ftable f (record (s.ftable f) { ref = 1 }))),
                  IsCounted-take others s.ofile s1.ftable f k c' l z,
                ))
        ]
  ]
