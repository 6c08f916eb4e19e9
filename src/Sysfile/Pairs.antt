-- ===== src/Sysfile/Pairs.antt =====
-- `pipealloc` of kernel/pipe.c and `sys_pipe` of kernel/sysfile.c on counted references: when they
-- fail, nothing is left of what they took.
use os2025_assignment.Base.{
  ℕ, ◌+◌, ◌==◌, ◌≡◌, ◌≢◌, refl, sym, ◌∙◌, ap, inl, inr, Bool, false, Bool-cases, Option, none, some,
  List, update, update_self, arith,
}
use mathlib.Core.Path.{subst}
use os2025_assignment.Machine.{Cmd, ok, pure, ◌>>◌}
use os2025_assignment.File.{File, unset}
use os2025_assignment.Proc.{int_bytes}
use os2025_assignment.Fs.{Fs}
use os2025_assignment.Sysfile.{Sys, close_file}
use os2025_assignment.Sysfile.Pipes.{pipealloc, store_fds, close_both, pipe_fds, sys_pipe}
use os2025_assignment.Sysfile.Slots.{with_fd, with_file, fdalloc_lem}
use os2025_assignment.Sysfile.Counts.{bump, IsCounted, IsCounted-take, IsCounted-drop}
use os2025_assignment.Sysfile.Shares.{IsPlain, update-IsPlain, IsCounted-swap}
use os2025_assignment.Sysfile.PipeEnds.{AreEnds, ends-IsPlain, other_file, both_ends}
use os2025_assignment.Sysfile.Undo.{undo_one, fresh_two, undo_two, drop_two}
use os2025_assignment.Sysfile.Users.{
  Gives, gives, Gives-bind, Gives-imp, Counted, CanPut, alloc_file_lem, close_file_lem,
}

CanPut-IsPlain : (ff : File) (fs : Fs) → IsPlain ff → CanPut ff fs
CanPut-IsPlain ff fs (inl e) = subst (λ k. CanPut (record ff { kind = k }) fs) (sym e) tt
CanPut-IsPlain ff fs (inr e) = subst (λ k. CanPut (record ff { kind = k }) fs) (sym e) tt

module _ {W : Type 0} (kalloc : W → ℕ × W) (pipeopen : ℕ → W → W)
    (pipeclose : ℕ → Bool → W → W) where
  -- two files are closed
  close_two :
      (others : ℕ → ℕ) (a b : ℕ) (s : Sys W)
      → IsCounted (bump a (bump b others)) s.ofile s.ftable
      → IsPlain (s.ftable a)
      → IsPlain (s.ftable b)
      → {A : Type 0} (v : A)
      → Gives
          (λ r s'. (r ≡ v) × (s'.ofile ≡ s.ofile) × Counted others s')
          ((close_file pipeclose a >> (close_file pipeclose b >> pure v)) s)
  close_two others a b s c pa pb v =
      Gives-bind _ _ (close_file pipeclose a s) _
        (close_file_lem pipeclose (bump b others) s.ofile a s c
          (CanPut-IsPlain (s.ftable a) s.fs pa))
        λ _ s1 (o1, c1, p1).
          Gives-bind _ _ (close_file pipeclose b s1) _
            (close_file_lem pipeclose others s.ofile b s1 c1
              (CanPut-IsPlain (s1.ftable b) s1.fs (p1 b pb)))
            λ _ s2 (o2, c2, _). gives (refl, o2 ∙ o1, rw (o2 ∙ o1) c2)

  -- what `pipealloc` leaves: nothing new, or the ends of a pipe, one reference each
  abbrev Piped : (ℕ → ℕ) → Sys W → Option (ℕ × ℕ) → Sys W → Type 0
  Piped others s none s' = (s'.ofile ≡ s.ofile) × Counted others s'
  Piped others s (some (a, b)) s' =
      (s'.ofile ≡ s.ofile) × Counted (bump a (bump b others)) s' × AreEnds s'.ftable a b

  pub pipealloc-IsCounted :
      (others : ℕ → ℕ) (s : Sys W)
      → Counted others s
      → Gives (Piped others s) (pipealloc kalloc pipeopen pipeclose s)
  unfolding pipealloc
  pipealloc-IsCounted others s c = elim (alloc_file_lem others s c) [
    | inl e ↦ rw (pipealloc, e) (gives (refl, c))
    | inr (a, e, _, ua, ca) ↦
        let s1 = record s { ftable = with_file s.ftable a } in
        elim (alloc_file_lem (bump a others) s1 ca) [
          | inl e' ↦
              rw (pipealloc, e, e')
                (Gives-bind _ _ (close_file pipeclose a s1) _
                  (close_file_lem pipeclose others s.ofile a s1 ca
                    (CanPut-IsPlain (s1.ftable a) s1.fs (fresh s a ua)))
                  λ _ s2 (o2, c2, _). gives (o2, rw o2 c2))
          | inr (b, e', zb, ub, cb) ↦
              let s2 = record s { ftable = with_file s1.ftable b; world = (kalloc s.world).1 } in
              let swapped = IsCounted-swap others s.ofile s2.ftable b a cb in
              let plain_a =
                update-IsPlain s1.ftable b (record (s1.ftable b) { ref = 1 }) (λ p. p) a
                  (fresh s a ua) in
              elim (Bool-cases ((kalloc s.world).0 == 0)) [
                | inl z ↦
                    rw (pipealloc, e, e', z)
                      (Gives-imp _ _
                        ((close_file pipeclose a >> (close_file pipeclose b >> pure none)) s2)
                        (close_two others a b s2 swapped plain_a (fresh s1 b ub) none)
                        λ r s3 (er, eo, c3). rw er (eo, c3))
                | inr z ↦
                    rw (pipealloc, e, e', z)
                      (let (made, ends) =
                          both_ends others s.ofile s2.ftable a b (kalloc s.world).0
                            (other_file s.ftable a b zb) (λ q. ground (arith, z, q)) swapped in
                        gives (refl, made, ends))
              ]
        ]
  ]
    where
      fresh : (s1 : Sys W) (a : ℕ) → (s1.ftable a).kind ≡ unset → IsPlain (with_file s1.ftable a a)
      fresh s1 a u =
          update-IsPlain s1.ftable a (record (s1.ftable a) { ref = 1 }) (λ p. p) a (inl u)

  module _ (copyout : ℕ → List ℕ → W → Bool × W) where
    store_fds_lem :
        (p fd0 fd1 : ℕ) (s : Sys W)
        → (b : Bool) × (w : W) × (store_fds kalloc pipeopen pipeclose copyout p fd0 fd1 s
            ≡ ok b (record s { world = w }))
    unfolding store_fds
    store_fds_lem p fd0 fd1 s =
        let r = copyout p (int_bytes fd0) s.world in
        elim (Bool-cases r.0) [
          | inl e ↦
              let r' = copyout (p + 4) (int_bytes fd1) r.1 in (r'.0, r'.1, rw (store_fds, e) refl)
          | inr e ↦ (false, r.1, rw (store_fds, e) refl)
        ]

    -- what `sys_pipe` leaves: the descriptors as they were, or two more, for the ends of a pipe
    abbrev pub PairMade : (ℕ → ℕ) → Sys W → Option ℕ → Sys W → Type 0
    PairMade others s none s' = (s'.ofile ≡ s.ofile) × Counted others s'
    PairMade others s (some _) s' =
        Counted others s'
        × ((a : ℕ) × (b : ℕ) × AreEnds s'.ftable a b
            × (j : ℕ) × (k : ℕ) × (s.ofile j ≡ 0)
            × (s.ofile k ≡ 0)
            × (j ≢ k)
            × (s'.ofile ≡ update (update s.ofile j (a + 1)) k (b + 1)))

    close_both_lem :
        (others : ℕ → ℕ) (s : Sys W) (a b : ℕ) (s1 : Sys W)
        → s1.ofile ≡ s.ofile
        → IsCounted (bump a (bump b others)) s1.ofile s1.ftable
        → IsPlain (s1.ftable a)
        → IsPlain (s1.ftable b)
        → Gives (PairMade others s) (close_both kalloc pipeopen pipeclose copyout a b s1)
    unfolding close_both
    close_both_lem others s a b s1 e c pa pb =
        Gives-imp _ _ ((close_file pipeclose a >> (close_file pipeclose b >> pure none)) s1)
          (close_two others a b s1 c pa pb none) λ r s3 (er, eo, c3). rw er (eo ∙ e, c3)

    pipe_fds-IsCounted :
        (others : ℕ → ℕ) (p : ℕ) (s : Sys W) (a b : ℕ) (s1 : Sys W)
        → s1.ofile ≡ s.ofile
        → IsCounted (bump a (bump b others)) s1.ofile s1.ftable
        → AreEnds s1.ftable a b
        → Gives (PairMade others s) (pipe_fds kalloc pipeopen pipeclose copyout p a b s1)
    unfolding pipe_fds
    pipe_fds-IsCounted others p s a b s1 eo c ends =
        let (pa, pb) = ends-IsPlain s1.ftable a b ends in
        elim (fdalloc_lem a s1) [
          | inl (e, _) ↦ rw (pipe_fds, e) (close_both_lem others s a b s1 eo c pa pb)
          | inr (j, e, l, z, _) ↦
              let s2 = with_fd s1 j a in
              let c2 = IsCounted-take (bump b others) s1.ofile s1.ftable a j c l z in
              elim (fdalloc_lem b s2) [
                | inl (e', _) ↦
                    rw (pipe_fds, e, e')
                      (close_both_lem others s a b (record s2 { ofile = update s2.ofile j 0 })
                        (undo_one s1.ofile j (a + 1) z ∙ eo)
                        (IsCounted-drop (bump b others) s2.ofile s1.ftable a j c2 l
                          (update_self s1.ofile j (a + 1)))
                        pa pb)
                | inr (k, e', l', z', _) ↦
                    let s3 = with_fd s2 k b in
                    let c3 = IsCounted-take others s2.ofile s1.ftable b k c2 l' z' in
                    let (ne, zk) = fresh_two s1.ofile j a k z' in
                    let (stored, w, e2) = store_fds_lem p j k s3 in
                    elim (Bool-cases stored) [
                      | inl t ↦
                          rw (pipe_fds, e, e', e2, t)
                            (gives (
                              c3,
                              (
                                a,
                                b,
                                ends,
                                j,
                                k,
                                subst (λ o. o j ≡ 0) eo z,
                                subst (λ o. o k ≡ 0) eo zk,
                                ne,
                                ap (λ o. update (update o j (a + 1)) k (b + 1)) eo,
                              ),
                            ))
                      | inr t ↦
                          rw (pipe_fds, e, e', e2, t)
                            (close_both_lem others s a b
                              (record s3 { ofile = update (update s3.ofile j 0) k 0; world = w })
                              (undo_two s1.ofile j (a + 1) k (b + 1) ne z zk ∙ eo)
                              (drop_two others s1.ofile s1.ftable a b j k c3 l l' ne) pa pb)
                    ]
              ]
        ]

    -- If the entries of the file table count their references, `sys_pipe` returns, and they do so
    -- afterwards. When it fails, for want of a file, a page, a descriptor or a user address, the
    -- descriptors are as they were; otherwise two that were free stand for the ends of one pipe: a
    -- file that can only be read and a file that can only be written.
    pub sys_pipe-IsCounted :
        (others : ℕ → ℕ) (p : ℕ) (s : Sys W)
        → Counted others s
        → Gives (PairMade others s) (sys_pipe kalloc pipeopen pipeclose copyout p s)
    unfolding sys_pipe
    sys_pipe-IsCounted others p s c =
        Gives-bind _ _ (pipealloc kalloc pipeopen pipeclose s) _ (pipealloc-IsCounted others s c)
          made
      where
        made :
            (r : Option (ℕ × ℕ)) (s1 : Sys W)
            → Piped others s r s1
            → Gives (PairMade others s) (
                (elim r as (λ _. Cmd (Sys W) (Option ℕ)) [
                  | none ↦ pure none
                  | some (rf, wf) ↦ pipe_fds kalloc pipeopen pipeclose copyout p rf wf
                ])
                  s1)
        made none s1 h = gives h
        made (some (a, b)) s1 (eo, c1, ends) = pipe_fds-IsCounted others p s a b s1 eo c1 ends
