-- ===== src/Fs/Filewrite.antt =====
-- `filewrite` on a file: the pieces make up the whole.
use os2025_assignment.Base.{
  ℕ, zero, suc, ◌+◌, ◌-◌, ◌*◌, ◌/◌, ◌^◌, ◌≤◌, ◌<◌, ◌≡◌, refl, ◌∙◌, ap, ap₂, sym, inl, inr, Bool,
  true, false, Option, some, ltb, ◌/=◌, ==_self, Bool-cases, arith, min,
}
use mathlib.Core.Path.{subst}
use native.Mathlib.Decide.{dec_lt}
use os2025_assignment.Machine.{ok, Cmd, Run}
use os2025_assignment.File.{File, FileKind, inode}
use os2025_assignment.Fs.{Fs, bsize, maxfile}
use os2025_assignment.Fs.Bytes.{byte_of, HasBlocks}
use os2025_assignment.Fs.Written.{IsApart, Sourced, written, written_add, written_none}
use os2025_assignment.Fs.File.{IsWritten}
use os2025_assignment.Fs.Locked.{IsReady, Round, round_lem, written_eq, IsWritten-IsReady}
use os2025_assignment.Fs.Open.{Journal, max_write, filewrite_loop, filewrite}

IsWritten-trans :
    (source : ℕ → ℕ) (ip src off m n : ℕ) (s s1 s' : Fs)
    → m ≤ n
    → IsWritten source ip src off m s s1
    → IsWritten source ip (src + m) (off + m) (n - m) s1 s'
    → IsWritten source ip src off n s s'
IsWritten-trans source ip src off m n s s1 s' h w w' = record {
  same_blocks = λ bn. w'.same_blocks bn ∙ w.same_blocks bn;
  reaches = let r = w'.reaches in omega arith;
  same_ref = w'.same_ref ∙ w.same_ref;
  same_locked = w'.same_locked ∙ w.same_locked;
  same_valid = w'.same_valid ∙ w.same_valid;
  new_bytes = λ i there.
      w'.new_bytes i (λ q. there (sym (w.same_blocks (i / bsize)) ∙ q))
      ∙ written_eq source (src + m) (off + m) (n - m) i (byte_of ip s1)
          (written source src off m (byte_of ip s)) (w.new_bytes i there)
      ∙ written_add source src off m n i (byte_of ip s) h;
}

IsWritten-none :
    (source : ℕ → ℕ) (ip src off n : ℕ) (s : Fs)
    → n ≡ 0
    → off ≤ (s.itable (ip - 1)).copy.size
    → IsWritten source ip src off n s s
IsWritten-none source ip src off n s e h = record {
  same_blocks = λ bn. refl;
  reaches = omega arith;
  same_ref = refl;
  same_locked = refl;
  same_valid = refl;
  new_bytes = λ i there. written_none source src off n i (byte_of ip s) e;
}

-- the open file at another offset
abbrev pub at_offset : File → ℕ → File
at_offset f off = record f { off = off }

-- the state with the log in front of it
abbrev pub logged : Fs → ℕ → ℕ → Journal
logged s ops begun = record { fs = s; ops = ops; begun = begun }

-- how many transactions write `n` bytes
abbrev pub transactions : ℕ → ℕ
transactions n = (n + 3071) / 3072

-- how `filewrite_loop` ends
abbrev wrote : ℕ → File → Journal → Run Journal (ℕ × File)
wrote i f j = ok (i, f) j

next_transaction :
    (n i m begun : ℕ)
    → i < n
    → m ≡ min (n - i) 3072
    → begun + 1 + transactions (n - (i + m)) ≡ begun + transactions (n - i)
next_transaction n i m begun l e = elim (dec_lt (n - i) 3072) [
  | yes small ↦ let q : n - (i + m) ≡ 0 = omega arith in omega (arith, q)
  | no big ↦ let q : m ≡ 3072 = omega arith in omega (arith, q)
]

module _ (copyin : ℕ → ℕ → Option (ℕ → ℕ)) (source : ℕ → ℕ) (ops : ℕ) where
  -- a round and the rest
  filewrite_step :
      (fuel : ℕ) (f : File) (addr i n m begun : ℕ) (s : Fs)
      → i < n
      → m ≡ min (n - i) max_write
      → f.off + m < 2 ^ 32
      → (r : Round copyin source f.ip (addr + i) f.off m s)
      → filewrite_loop copyin (suc fuel) f addr i n (logged s ops begun)
        ≡ filewrite_loop copyin fuel
            (at_offset f (f.off + m))
            addr
            (i + m)
            n
            (logged r.s3 ops (begun + 1))
  unfolding filewrite_loop
  filewrite_step fuel f addr i n m begun s l e small r =
      let more : ltb i n ≡ true = ground arith in
      let whole : (m /= min (n - i) max_write) ≡ false = ground arith in
      rw (more, ← e, r.lock, r.write, r.unlock, whole)
        (ap₂
          (λ o k.
            filewrite_loop copyin fuel (at_offset f o) addr (i + m) n (logged r.s3 k (begun + 1)))
          (omega arith) (omega arith))

  filewrite_join :
      (fuel : ℕ) (f : File) (addr i n m begun : ℕ) (s : Fs)
      → i < n
      → m ≡ min (n - i) max_write
      → f.off + m < 2 ^ 32
      → (r : Round copyin source f.ip (addr + i) f.off m s)
      → (s' : Fs) × (filewrite_loop copyin fuel
            (at_offset f (f.off + m))
            addr
            (i + m)
            n
            (logged r.s3 ops (begun + 1))
          ≡ ok
              (n, at_offset f (f.off + m + (n - (i + m))))
              (logged s' ops (begun + 1 + transactions (n - (i + m)))))
        × IsWritten source f.ip (addr + (i + m)) (f.off + m) (n - (i + m)) r.s3 s'
      → (s' : Fs) × (filewrite_loop copyin (suc fuel) f addr i n (logged s ops begun)
          ≡ ok (n, at_offset f (f.off + (n - i))) (logged s' ops (begun + transactions (n - i))))
        × IsWritten source f.ip (addr + i) f.off (n - i) s s'
  filewrite_join fuel f addr i n m begun s l e small r (s', run, w) = (
    s',
    filewrite_step fuel f addr i n m begun s l e small r
        ∙ run
        ∙ ap₂ (λ o k. ok (n, at_offset f o) (logged s' ops k)) (omega arith)
            (next_transaction n i m begun l e),
    IsWritten-trans source f.ip (addr + i) f.off m (n - i) s r.s3 s' (omega arith) r.done (
        subst (λ x. IsWritten source f.ip x (f.off + m) (n - i - m) r.s3 s') (omega arith)
          (subst (λ y. IsWritten source f.ip (addr + (i + m)) (f.off + m) y r.s3 s') (omega arith)
            w)),
  )

  none_left :
      (f : File) (i n begun : ℕ) (s : Fs)
      → i ≡ n
      → wrote i f (logged s ops begun)
        ≡ wrote n (at_offset f (f.off + (n - i))) (logged s ops (begun + transactions (n - i)))
  none_left f i n begun s e =
      let nothing : n - i ≡ 0 = omega arith in
      rw (nothing, e)
        (ap₂ (λ o k. wrote n (at_offset f o) (logged s ops k)) (omega arith) (omega arith))

  -- what the rest of the loop needs holds behind a round
  after_round :
      (P : Fs → Type 0) (fuel : ℕ) (f : File) (addr i n m : ℕ) (s : Fs)
      → IsApart f.ip s
      → HasBlocks f.ip s f.off (n - i)
      → IsReady f.ip s
      → (r : Round copyin source f.ip (addr + i) f.off m s) → f.off + (n - i) ≤ maxfile * bsize
      → m ≤ n - i
      → (IsReady f.ip r.s3
          → f.off + m ≤ (r.s3.itable (f.ip - 1)).copy.size
          → f.off + m + (n - (i + m)) ≤ maxfile * bsize
          → IsApart f.ip r.s3
          → HasBlocks f.ip r.s3 (f.off + m) (n - (i + m))
          → P r.s3)
      → P r.s3
  after_round P fuel f addr i n m s apart all ready r u le go =
      let w = r.done in
      go (IsWritten-IsReady source f.ip (addr + i) f.off m s r.s3 w ready) w.reaches (omega arith)
        (λ a b there q.
          apart a b (λ z. there (w.same_blocks a ∙ z))
            (sym (w.same_blocks a) ∙ q ∙ w.same_blocks b))
        (λ j a b z. all j (omega arith) (omega arith) (sym (w.same_blocks (j / bsize)) ∙ z))

  filewrite_loop_lem :
      (fuel : ℕ) (f : File) (addr i n begun : ℕ) (s : Fs)
      → n - i < fuel
      → i ≤ n
      → Sourced copyin source (addr + i) (n - i)
      → IsReady f.ip s
      → f.off ≤ (s.itable (f.ip - 1)).copy.size
      → f.off + (n - i) ≤ maxfile * bsize
      → IsApart f.ip s
      → HasBlocks f.ip s f.off (n - i)
      → (s' : Fs) × (filewrite_loop copyin fuel f addr i n (logged s ops begun)
          ≡ ok (n, at_offset f (f.off + (n - i))) (logged s' ops (begun + transactions (n - i))))
        × IsWritten source f.ip (addr + i) f.off (n - i) s s'
  unfolding filewrite_loop
  filewrite_loop_lem zero f addr i n begun s l le works ready h u apart all = absurd (omega arith)
  filewrite_loop_lem (suc fuel) f addr i n begun s l le works ready h u apart all =
      elim (Bool-cases (ltb i n)) [
        | inr stop ↦ (
          s,
          rw stop (none_left f i n begun s (ground arith)),
          IsWritten-none source f.ip (addr + i) f.off (n - i) s (ground arith) h,
        )
        | inl more ↦
            let m = min (n - i) max_write in
            let lt : i < n = ground arith in
            let r =
              round_lem copyin source f.ip (addr + i) f.off m s
                (λ a k p q. works a k (omega arith) (omega arith)) ready h (omega arith) apart
                (λ j a b. all j a (omega arith)) in
            filewrite_join fuel f addr i n m begun s lt refl (omega arith) r (
              after_round
                (λ t.
                  (s' : Fs) × (filewrite_loop copyin fuel (at_offset f (f.off + m)) addr (i + m) n
                      (logged t ops (begun + 1))
                    ≡ ok (n, at_offset f (f.off + m + (n - (i + m))))
                        (logged s' ops (begun + 1 + transactions (n - (i + m)))))
                  × IsWritten source f.ip (addr + (i + m)) (f.off + m) (n - (i + m)) t s')
                fuel f addr i n m s apart all ready r u (omega arith)
                (filewrite_loop_lem fuel (at_offset f (f.off + m)) addr (i + m) n (begun + 1) r.s3
                  (omega arith) (omega arith) (λ a k p q. works a k (omega arith) (omega arith))))
      ]

  whole_write :
      (begun : ℕ) (other : FileKind → Cmd Fs (Option ℕ)) (has : ℕ → Bool) (f : File) (addr n : ℕ)
      (s : Fs)
      → f.writable ≡ true
      → f.kind ≡ inode
      → (s' : Fs)
      → filewrite_loop copyin (n + 1) f addr 0 n (logged s ops begun)
        ≡ ok (n, at_offset f (f.off + n)) (logged s' ops (begun + transactions n))
      → IsWritten source f.ip addr f.off n s s'
      → (s'' : Fs) × (filewrite copyin other has f addr n (logged s ops begun)
          ≡ ok (some n, at_offset f (f.off + n)) (logged s'' ops (begun + transactions n)))
        × IsWritten source f.ip addr f.off n s s''
  unfolding filewrite
  whole_write begun other has f addr n s writable kind s' run w =
      (s', simp (writable, kind, run, ==_self n), w)

  -- If the inode is in use, not locked and read, the offset lies within the file, the write ends
  -- within the largest file, the file has blocks for the bytes, each of them at one position only,
  -- and `copyin` works for each part of the `n` bytes from `addr` on, then `filewrite` on a writable
  -- file writes all `n` bytes: the offset moves by `n`, and the file has the same blocks, is large
  -- enough and holds the new bytes, with all others as they were. It begins a transaction for every
  -- 3072 bytes and one for what is left over, and ends each of them.
  pub filewrite_lem :
      (other : FileKind → Cmd Fs (Option ℕ)) (has : ℕ → Bool) (f : File) (addr n begun : ℕ) (s : Fs)
      → Sourced copyin source addr n
      → f.writable ≡ true
      → f.kind ≡ inode
      → IsReady f.ip s
      → f.off ≤ (s.itable (f.ip - 1)).copy.size
      → f.off + n ≤ maxfile * bsize
      → IsApart f.ip s
      → HasBlocks f.ip s f.off n
      → (s' : Fs) × (filewrite copyin other has f addr n (logged s ops begun)
          ≡ ok (some n, at_offset f (f.off + n)) (logged s' ops (begun + transactions n)))
        × IsWritten source f.ip addr f.off n s s'
  unfolding filewrite
  filewrite_lem other has f addr n begun s works writable kind ready h u apart all =
      let (s', run, w) =
        filewrite_loop_lem (n + 1) f addr 0 n begun s (omega arith) (omega arith)
          (λ a k p q. works a k (omega arith) (omega arith)) ready h (omega arith) apart
          (λ i l g. all i l (omega arith)) in
      whole_write begun other has f addr n s writable kind s'
        (run
          ∙ ap (λ d. ok (n, at_offset f (f.off + d)) (logged s' ops (begun + transactions d)))
              (omega arith))
        (subst (λ x. IsWritten source f.ip x f.off n s s') (omega arith)
          (subst (λ y. IsWritten source f.ip (addr + 0) f.off y s s') (omega arith) w))
