-- ===== src/Log/Write.antt =====
-- How a transaction grows: `begin_op` reserves room in the log, and `log_write` adds a block.
use os2025_assignment.Base.{
  ℕ, zero, suc, ◌+◌, ◌^◌, ◌≤◌, ◌<◌, ◌≡◌, refl, ◌∙◌, ap, sym, ◌≢◌, true, false, inl, inr, ◌||◌,
  arith, not, ◌==◌, ==_self, ==_ne, ltb, leb, if◌then◌else◌, Bool-cases, update, update_ne,
}
use os2025_assignment.Machine.{ok}
use native.Mathlib.Decide.{ℕ_discrete}
use os2025_assignment.Log.{Log, find_entry, log_write, logsize}
use os2025_assignment.Log.Replay.{is_logged}
use os2025_assignment.Log.Steps.{Outside}
use os2025_assignment.Log.Commit.{IsReady}

find_entry-le : (n i : ℕ) (block : ℕ → ℕ) (b : ℕ) → find_entry n i block b ≤ i + n
unfolding find_entry
find_entry-le zero i block b = omega arith
find_entry-le (suc n) i block b = ground (arith, find_entry-le n (i + 1) block b)

find_entry-hit :
    (n i : ℕ) (block : ℕ → ℕ) (b : ℕ)
    → find_entry n i block b < i + n
    → block (find_entry n i block b) ≡ b
unfolding find_entry
find_entry-hit zero i block b h = absurd (omega arith)
find_entry-hit (suc n) i block b h = elim (Bool-cases (block i == b)) [
  | inl hit ↦ rw hit (ground arith)
  | inr miss ↦ rw miss (find_entry-hit n (i + 1) block b (omega (arith, (rw miss at h))))
]

entries :
    (block : ℕ → ℕ) (b n t : ℕ)
    → is_logged block b n t ≡ false
    → (i : ℕ) → t ≤ i
    → i < t + n
    → block i ≢ b
unfolding is_logged
entries block b zero t h i a c = absurd (omega arith)
entries block b (suc n) t h i a c = elim (ℕ_discrete i t) [
  | yes e ↦ rw e (ground arith)
  | no ne ↦ entries block b n (t + 1) (ground arith) i (omega arith) (omega arith)
]

no_entries :
    (block : ℕ → ℕ) (b n t : ℕ)
    → ((i : ℕ) → t ≤ i → i < t + n → block i ≢ b)
    → is_logged block b n t ≡ false
unfolding is_logged
no_entries block b zero t h = refl
no_entries block b (suc n) t h =
    rw (==_ne (block t) b (h t (omega arith) (omega arith)))
      (no_entries block b n (t + 1) (λ i a c. h i (omega arith) (omega arith)))

-- whether there is an entry
find_entry-logged :
    (n i : ℕ) (block : ℕ → ℕ) (b : ℕ)
    → (find_entry n i block b == i + n) ≡ not (is_logged block b n i)
unfolding find_entry is_logged
find_entry-logged zero i block b = ground arith
find_entry-logged (suc n) i block b =
    ground (arith, find_entry-logged n (i + 1) block b, find_entry-le n (i + 1) block b)

-- the tests of `log_write`
admits :
    (n size outstanding : ℕ)
    → n < logsize
    → n + 1 < size
    → 1 ≤ outstanding
    → outstanding < 2 ^ 31
    → ((leb logsize n || leb size (n + 1)) ≡ false)
      × ((ltb outstanding 1 || leb (2 ^ 31) outstanding) ≡ false)
admits n size outstanding a b c d = (ground arith, ground arith)

module _ {Data : Type 0} where
  -- the state after `log_write`, when the caller has put `v` into the buffer
  abbrev pub extended : ℕ → Data → Log Data → Log Data
  extended b v s =
      let i = find_entry s.lh.n 0 s.lh.block b in
      record s {
        cache = update s.cache b v;
        lh = record {
          n = if i == s.lh.n then s.lh.n + 1 else s.lh.n;
          block = update s.lh.block i b;
        };
        pins = if i == s.lh.n then update s.pins b (s.pins b + 1) else s.pins;
      }

  module _ (b : ℕ) (v : Data) (s : Log Data) (c : IsReady s) (o : Outside s b) where
    place-lt : find_entry s.lh.n 0 s.lh.block b < (extended b v s).lh.n
    place-lt = ground (arith, find_entry-le s.lh.n 0 s.lh.block b)

    extended-homes : (i : ℕ) → i < (extended b v s).lh.n → Outside s ((extended b v s).lh.block i)
    extended-homes i l = elim (ℕ_discrete i (find_entry s.lh.n 0 s.lh.block b)) [
      | yes e ↦ rw (e, ==_self (find_entry s.lh.n 0 s.lh.block b)) o
      | no ne ↦ rw (==_ne i (find_entry s.lh.n 0 s.lh.block b) ne) (c.homes i (ground arith))
    ]

    -- a block that is not in the log afterwards is another one and was not in it before
    still_out :
        (b' : ℕ)
        → is_logged (extended b v s).lh.block b' (extended b v s).lh.n 0 ≡ false
        → (b ≢ b') × (is_logged s.lh.block b' s.lh.n 0 ≡ false)
    still_out b' h =
        let p = find_entry s.lh.n 0 s.lh.block b in
        let others = entries (extended b v s).lh.block b' (extended b v s).lh.n 0 h in
        let other : b ≢ b' = rw (==_self p) at (others p (omega arith) (omega (arith, place-lt))) in
        (
          other,
          no_entries s.lh.block b' s.lh.n 0 (λ i a l. elim (ℕ_discrete i p) [
            | yes e ↦ λ q. other (
                sym (find_entry-hit s.lh.n 0 s.lh.block b (omega arith))
                ∙ ap s.lh.block (sym e)
                ∙ q)
            | no ne ↦ rw (==_ne i p ne) at (others i (omega arith) (ground arith))
          ]),
        )

    extended-clean :
        (b' : ℕ)
        → Outside s b'
        → is_logged (extended b v s).lh.block b' (extended b v s).lh.n 0 ≡ false
        → s.disk b' ≡ (extended b v s).cache b'
    extended-clean b' o' h =
        c.clean b' o' ((still_out b' h).1)
        ∙ sym (update_ne s.cache b v b' (λ e. (still_out b' h).0 (sym e)))

    extended-logged : is_logged (extended b v s).lh.block b (extended b v s).lh.n 0 ≡ true
    extended-logged =
        elim (Bool-cases (is_logged (extended b v s).lh.block b (extended b v s).lh.n 0)) [
          | inl e ↦ e
          | inr e ↦ absurd ((still_out b e).0 refl)
        ]

  -- The caller has put `v` into the buffer of a block of the file system. When there is room,
  -- `log_write` makes the block part of the transaction, which is then still ready to be committed;
  -- the log grows by one entry at most, and not at all if the block was in it.
  pub log_write-IsReady :
      (b : ℕ) (v : Data) (s : Log Data)
      → IsReady s
      → Outside s b
      → s.lh.n < logsize
      → s.lh.n + 1 < s.size
      → 1 ≤ s.outstanding
      → s.outstanding < 2 ^ 31
      → (s' : Log Data) × (log_write b (record s { cache = update s.cache b v }) ≡ ok tt s')
        × IsReady s'
        × (is_logged s'.lh.block b s'.lh.n 0 ≡ true)
        × (s'.lh.n ≡ (if is_logged s.lh.block b s.lh.n 0 then s.lh.n else s.lh.n + 1))
  unfolding log_write
  log_write-IsReady b v s c o room room' act act' = (
    extended b v s,
    (let g = admits s.lh.n s.size s.outstanding room room' act act' in rw (g.0, g.1) refl),
    record {
      empty = c.empty;
      homes = extended-homes b v s c o;
      fits = ground arith;
      clean = extended-clean b v s c o;
    },
    extended-logged b v s c o,
    ground (arith, find_entry-logged s.lh.n 0 s.lh.block b),
  )
