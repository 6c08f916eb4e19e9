-- ===== src/Sysfile/Kept.antt =====
-- The system calls on files leave the file table with its references counted.
use os2025_assignment.Base.{
  ℕ, ◌+◌, ◌≡◌, ◌≢◌, inl, inr, refl, sym, ap, ◌∙◌, Bool-cases, Bool, Option, none, some, List, ◌==◌,
  update, arith,
}
use os2025_assignment.Machine.{Cmd, Run, Void, ok, panic, pure, and_then, ◌>>◌}
use os2025_assignment.Str.{Bytes}
use os2025_assignment.File.{File, FileKind, unset, inode, device}
use os2025_assignment.Fs.{Fs, Inode}
use os2025_assignment.Sysfile.{
  Sys, close_last, close_file, open_file, sys_read, sys_write, sys_fstat, sys_dup, sys_close,
  end_op, with_fs,
}
use os2025_assignment.Fs.Inodes.{iput}
use os2025_assignment.Sysfile.Names.{t_device, link_bad, sys_link}
use os2025_assignment.Sysfile.Paths.{
  opened, unlink_bad, sys_unlink, open_inode, sys_open, make_node, sys_mkdir, sys_mknod, sys_chdir,
}
use os2025_assignment.Sysfile.Pipes.{sys_pipe}
use os2025_assignment.Sysfile.Counts.{IsCounted, IsCounted-entry, IsCounted-drop}
use os2025_assignment.Sysfile.Shares.{IsCounted-fileclose}
use os2025_assignment.Sysfile.Users.{
  Gives, gives, Counted, Duped, Opened, argfd_lem, sys_dup-IsCounted, open_file-IsCounted,
}
use os2025_assignment.Sysfile.Keeping.{Keeps, panics, keeps, keeping}
use os2025_assignment.Sysfile.Io.{Ends, ends, Kept, sys_read_lem, sys_write_lem, sys_fstat_lem}
use os2025_assignment.Sysfile.Pairs.{PairMade, sys_pipe-IsCounted}
use os2025_assignment.Sysfile.Calls.{
  FileCall, dup, read, write, fstat, stat_size, status, close, pipe, open_path, link, unlink, mkdir,
  mknod, chdir, run_call,
}

-- what `sys_open` stores in a file leaves its count
opened_ref : (i : Inode) (ip omode : ℕ) (f : File) → (opened i ip omode f).ref ≡ f.ref
opened_ref i ip omode f = elim (Bool-cases (i.copy.kind == t_device)) [
  | inl e ↦ rw e refl
  | inr e ↦ rw e refl
]

held_ref : (r : ℕ) → r ≡ 1 → r ≢ 0
held_ref r e z = omega arith

module _ {W : Type 0} (others : ℕ → ℕ) (junk before : Bytes) where
  sys_link-Keeps :
      (old new : Option (List ℕ)) (s : Sys W)
      → Counted others s
      → Keeps others (sys_link junk before old new s)
  unfolding sys_link link_bad
  sys_link-Keeps none new s c = keeps c
  sys_link-Keeps (some old) none s c = keeps c
  sys_link-Keeps (some old) (some new) s c = search keeping depth 40

  sys_unlink-Keeps :
      (path : Option (List ℕ)) (s : Sys W)
      → Counted others s
      → Keeps others (sys_unlink junk before path s)
  unfolding sys_unlink unlink_bad
  sys_unlink-Keeps none s c = keeps c
  sys_unlink-Keeps (some path) s c = search keeping depth 40

  make_node-Keeps :
      (path : Option (List ℕ)) (kind major minor : ℕ) (s : Sys W)
      → Counted others s
      → Keeps others (make_node junk before path kind major minor s)
  unfolding make_node
  make_node-Keeps none kind major minor s c = keeps c
  make_node-Keeps (some path) kind major minor s c = search keeping depth 40

  sys_chdir-Keeps :
      (path : Option (List ℕ)) (s : Sys W)
      → Counted others s
      → Keeps others (sys_chdir junk before path s)
  unfolding sys_chdir
  sys_chdir-Keeps none s c = keeps c
  sys_chdir-Keeps (some path) s c = search keeping depth 40

  Ends-Keeps :
      {A B : Type 0} (s : Sys W) (r : Run (Sys W) A) (g : A → B)
      → Counted others s
      → Ends (Kept s) r
      → Keeps others (and_then r λ a. ok (g a))
  Ends-Keeps s panic g c h = panics
  Ends-Keeps s (ok a t) g c (ends (_, k)) = keeps (k others c)

  -- a call that is known to return with the references counted
  Keeps-Gives :
      {A : Type 0} (P : A → Sys W → Type 0) (r : Run (Sys W) A)
      → Gives P r
      → ((a : A) (s : Sys W) → P a s → Counted others s)
      → Keeps others r
  Keeps-Gives P (ok a s) (gives p) h = keeps (h a s p)
  Keeps-Gives P panic g h = elim g [ ]

  module _ (pipeclose : ℕ → Bool → W → W) where
    close_last-Keeps :
        {B : Type 0} (ff : File) (s : Sys W) (v : B)
        → Counted others s
        → Keeps others ((close_last pipeclose ff >> pure v) s)
    unfolding close_last
    close_last-Keeps ff s v c = by_kind ff.kind
      where
        put_back :
            (r : Run Fs Void)
            → Keeps others (
                and_then
                  (and_then (with_fs (record s { ops = s.ops + 1 }) r) (λ _. end_op))
                  (λ _. pure v))
        put_back panic = panics
        put_back (ok _ fs) = keeps c

        by_kind :
            (k : FileKind)
            → Keeps others ((close_last pipeclose (record ff { kind = k }) >> pure v) s)
        by_kind unset = keeps c
        by_kind FileKind.pipe = keeps c
        by_kind inode = put_back (iput ff.ip s.fs)
        by_kind device = put_back (iput ff.ip s.fs)

    sys_close-Keeps :
        (fd : ℕ) (s : Sys W) → Counted others s → Keeps others (sys_close pipeclose fd s)
    unfolding sys_close close_file
    sys_close-Keeps fd s c = elim (argfd_lem fd s) [
      | inl e ↦ rw (sys_close, e) (keeps c)
      | inr (f, e, h, o) ↦
          let (r, t, e', c', _, last) =
            IsCounted-fileclose others (update s.ofile fd 0) s.ftable f
              (IsCounted-drop others s.ofile s.ftable f fd c h o) in
          elim last [
            | inl n ↦ rw (sys_close, e, close_file, e', n) (keeps c')
            | inr l ↦
                rw (sys_close, e, close_file, e', l)
                  (close_last-Keeps (s.ftable f)
                    (record s { ofile = update s.ofile fd 0; ftable = t }) (some 0) c')
          ]
    ]

    -- the file that was opened gets its contents
    opened-IsCounted :
        (s : Sys W) (f omode ip : ℕ) (i : Inode)
        → Counted others s
        → (s.ftable f).ref ≡ 1
        → IsCounted others s.ofile (update s.ftable f (opened i ip omode (s.ftable f)))
    opened-IsCounted s f omode ip i c one =
        IsCounted-entry others others s.ofile s.ftable f (opened i ip omode (s.ftable f)) c
          (ap (λ r. r + others f) (sym (opened_ref i ip omode (s.ftable f)))) (λ g ne. refl)
          (λ z.
            elim (held_ref (s.ftable f).ref one (sym (opened_ref i ip omode (s.ftable f)) ∙ z)) [ ])

    keep_open :
        {B : Type 0} (s : Sys W) (k : Option (ℕ × ℕ) → Cmd (Sys W) B)
        → Counted others s
        → ((s' : Sys W) → Counted others s' → Keeps others (k none s'))
        → ((x : ℕ × ℕ) (s' : Sys W)
            → Counted others s'
            → (s'.ftable (x.0)).ref ≡ 1
            → Keeps others (k (some x) s'))
        → Keeps others (and_then (open_file pipeclose s) k)
    keep_open s k c h h' =
        by_result (open_file pipeclose s) (open_file-IsCounted pipeclose others s c)
      where
        by_result :
            (r : Run (Sys W) (Option (ℕ × ℕ)))
            → Gives (Opened pipeclose others s) r
            → Keeps others (and_then r k)
        by_result panic g = elim g [ ]
        by_result (ok none s') (gives (_, c')) = h s' c'
        by_result (ok (some x) s') (gives (_, _, one, c')) = h' x s' c' one

    open_inode-Keeps :
        (path : List ℕ) (omode : ℕ) (s : Sys W)
        → Counted others s
        → Keeps others (open_inode junk before path omode s)
    unfolding open_inode
    open_inode-Keeps path omode s c = search keeping depth 40

    keep_inode :
        {B : Type 0} (path : List ℕ) (omode : ℕ) (s : Sys W) (k : Option ℕ → Cmd (Sys W) B)
        → Counted others s
        → ((s' : Sys W) → Counted others s' → Keeps others (k none s'))
        → ((x : ℕ) (s' : Sys W) → Counted others s' → Keeps others (k (some x) s'))
        → Keeps others (and_then (open_inode junk before path omode s) k)
    keep_inode path omode s k c h h' =
        by_result (open_inode junk before path omode s) (open_inode-Keeps path omode s c)
      where
        by_result : (r : Run (Sys W) (Option ℕ)) → Keeps others r → Keeps others (and_then r k)
        by_result panic r = panics
        by_result (ok none s') (keeps c') = h s' c'
        by_result (ok (some x) s') (keeps c') = h' x s' c'

    sys_open-Keeps :
        (path : Option (List ℕ)) (omode : ℕ) (s : Sys W)
        → Counted others s
        → Keeps others (sys_open junk before pipeclose path omode s)
    unfolding sys_open
    sys_open-Keeps none omode s c = keeps c
    sys_open-Keeps (some path) omode s c =
        search (keeping, keep_inode, keep_open, opened-IsCounted) depth 40

    module _ (kalloc : W → ℕ × W) (pipeopen : ℕ → W → W) (copyout : ℕ → List ℕ → W → Bool × W)
        (other : FileKind → Cmd Fs (Option ℕ)) (has : ℕ → Bool) (takes : ℕ → ℕ → Bool)
        (copyin : ℕ → ℕ → Option (ℕ → ℕ)) where
      -- Each of the calls `dup`, `read`, `write`, `fstat`, `close`, `pipe`, `open`, `link`, `unlink`,
      -- `mkdir`, `mknod` and `chdir` that returns, on whatever path through its errors, leaves a file
      -- table whose entries count the references of the process and of others, if it found one.
      pub run_call-IsCounted :
          (call : FileCall) (s : Sys W)
          → Counted others s
          → Keeps others
              (run_call pipeclose kalloc pipeopen copyout other has takes copyin junk before call s)
      unfolding run_call sys_mkdir sys_mknod
      run_call-IsCounted (dup fd) s c =
          Keeps-Gives (Duped others fd s) (sys_dup fd s) (sys_dup-IsCounted others fd s c) duped
        where
          duped : (r : Option ℕ) (s' : Sys W) → Duped others fd s r s' → Counted others s'
          duped none s' e = rw e c
          duped (some k) s' (_, _, c') = c'
      run_call-IsCounted (read fd p n) s c =
          Ends-Keeps s (sys_read other has takes fd p n s) (λ r. r.0) c
            (sys_read_lem other has takes fd p n s)
      run_call-IsCounted (write fd p n) s c =
          write_keeps (sys_write other has copyin fd p n s)
            (sys_write_lem other has copyin fd p n s)
        where
          write_keeps : (r : Run (Sys W) (Option ℕ)) → Ends (Kept s) r → Keeps others r
          write_keeps panic h = panics
          write_keeps (ok a t) (ends (_, k)) = keeps (k others c)
      run_call-IsCounted (fstat fd st) s c =
          Ends-Keeps s (sys_fstat (takes st stat_size) fd s) status c
            (sys_fstat_lem (takes st stat_size) fd s)
      run_call-IsCounted (close fd) s c = sys_close-Keeps fd s c
      run_call-IsCounted (pipe p) s c =
          Keeps-Gives _ (sys_pipe kalloc pipeopen pipeclose copyout p s)
            (sys_pipe-IsCounted kalloc pipeopen pipeclose copyout others p s c) made
        where
          made :
              (r : Option ℕ) (s' : Sys W)
              → PairMade kalloc pipeopen pipeclose copyout others s r s'
              → Counted others s'
          made none s' (_, c') = c'
          made (some _) s' (c', _) = c'
      run_call-IsCounted (open_path path omode) s c = sys_open-Keeps path omode s c
      run_call-IsCounted (link old new) s c = sys_link-Keeps old new s c
      run_call-IsCounted (unlink path) s c = sys_unlink-Keeps path s c
      run_call-IsCounted (mkdir path) s c = make_node-Keeps path _ _ _ s c
      run_call-IsCounted (mknod path major minor) s c = make_node-Keeps path _ _ _ s c
      run_call-IsCounted (chdir path) s c = sys_chdir-Keeps path s c
