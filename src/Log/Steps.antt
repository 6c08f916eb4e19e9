-- ===== src/Log/Steps.antt =====
-- What the loops of `write_log` and `install_trans` leave on the disk, wherever the power ends.
use os2025_assignment.Base.{
  ℕ, zero, suc, ◌+◌, ◌-◌, ◌≤◌, ◌<◌, ◌≡◌, refl, ◌∙◌, ap, sym, ◌≢◌, update_ne, Bool, true, false, inl,
  inr, arith, ==_self, ◌==◌, if◌then◌else◌, Bool-cases, update, within,
}
use os2025_assignment.Log.{
  Log, install_block, install_loop, log_block, write_log_loop, copy_numbers,
}
use os2025_assignment.Log.Replay.{pick, pick-ext}

pub copy_numbers_lem :
    (n i : ℕ) (from to : ℕ → ℕ) (j : ℕ)
    → copy_numbers n i from to j ≡ (if within i n j then from j else to j)
unfolding copy_numbers
copy_numbers_lem zero i from to j = ground arith
copy_numbers_lem (suc n) i from to j =
    ground (arith, copy_numbers_lem n (i + 1) from (update to i (from i)) j)

-- how many of `n` writes reach the disk
unfoldable pub writes : ℕ → ℕ → ℕ
writes zero power = 0
writes (suc n) power = if power == 0 then 0 else suc (writes n (power - 1))

pub writes-off : (n : ℕ) → writes n 0 ≡ 0
unfolding writes
writes-off zero = refl
writes-off (suc n) = refl

pub writes-le : (n power : ℕ) → writes n power ≤ n
unfolding writes
writes-le zero power = omega arith
writes-le (suc n) power = ground (arith, writes-le n (power - 1))

pub writes-all : (n power : ℕ) → n ≤ power → writes n power ≡ n
unfolding writes
writes-all zero power h = refl
writes-all (suc n) power h = ground (arith, writes-all n (power - 1))

off_after : (power : ℕ) → (power == 0) ≡ true → power - 1 ≡ 0
off_after power h = ground arith

pub apart :
    (start size home i : ℕ) → within start size home ≡ false → i + 1 < size → start + i + 1 ≢ home
apart start size home i h fits = λ e. ground arith

-- a range and the entry in front of it
widen :
    {A : Type 0} (lo lo' w b : ℕ) (u v x d : A)
    → lo' ≡ lo + 1
    → (b ≡ lo → v ≡ x)
    → (within lo' w b ≡ true → u ≡ x)
    → (if within lo' w b then u else if b == lo then v else d)
      ≡ (if within lo (suc w) b then x else d)
widen lo lo' w b u v x d e f g = ground arith

flip : {A : Type 0} (x y : ℕ) (v z : A) → (if x == y then v else z) ≡ (if y == x then v else z)
flip x y v z = ground arith

module _ {Data : Type 0} where
  -- the block is none of the log's
  abbrev pub Outside : Log Data → ℕ → Type 0
  Outside s b = within s.start s.size b ≡ false

  -- the blocks of the entries before `n` are none of the log's
  abbrev pub Homes : Log Data → ℕ → Type 0
  Homes s n = (i : ℕ) → i < n → Outside s (s.lh.block i)

  abbrev pub log_copy : Log Data → ℕ → Data
  log_copy s i = s.cache (s.start + i + 1)

  -- With power for `s.power` more writes, the loop of `install_trans` installs as many entries.
  pub install_loop-disk :
      (r : Bool) (n t b : ℕ) (s : Log Data)
      → Homes s (t + n)
      → t + n < s.size
      → (install_loop r n t s).disk b
        ≡ pick s.lh.block b (log_copy s) (writes n s.power) t (s.disk b)
  unfolding install_loop install_block pick writes
  install_loop-disk r zero t b s h fits = refl
  install_loop-disk r (suc n) t b s h fits =
      let later =
        install_loop-disk r n (t + 1) b (install_block r t s) (λ i c. h i (omega arith))
          (omega arith) in
      later ∙ elim (Bool-cases (s.power == 0)) [
        | inl off ↦ rw (off, off_after s.power off, writes-off n)
        | inr on ↦
            let home = s.lh.block t in
            rw (on, ==_self home)
              (pick-ext s.lh.block b (log_copy (install_block r t s)) (log_copy s)
                  (writes n (s.power - 1)) (t + 1) (update s.disk home (log_copy s t) b)
                  (λ i a c. update_ne s.cache home (log_copy s t) (s.start + i + 1) (
                    apart s.start s.size home i (h t (omega arith))
                      (omega (arith, writes-le n (s.power - 1)))))
                ∙ ap (pick s.lh.block b (log_copy s) (writes n (s.power - 1)) (t + 1))
                    (flip b home (log_copy s t) (s.disk b)))
      ]

  pub write_log_loop-disk :
      (n t b : ℕ) (s : Log Data)
      → Homes s (t + n)
      → t + n < s.size
      → (write_log_loop n t s).disk b ≡ (
          if within (s.start + t + 1) (writes n s.power) b
          then s.cache (s.lh.block (b - s.start - 1))
          else s.disk b)
  unfolding write_log_loop log_block writes
  write_log_loop-disk zero t b s h fits = ground arith
  write_log_loop-disk (suc n) t b s h fits =
      let later =
        write_log_loop-disk n (t + 1) b (log_block t s) (λ i c. h i (omega arith)) (omega arith) in
      later ∙ elim (Bool-cases (s.power == 0)) [
        | inl off ↦ rw (off, off_after s.power off, writes-off n) (ground arith)
        | inr on ↦
            rw (on, ==_self (s.start + t + 1))
              (widen (s.start + t + 1) (s.start + (t + 1) + 1) (writes n (s.power - 1)) b _
                (s.cache (s.lh.block t)) (s.cache (s.lh.block (b - s.start - 1))) (s.disk b)
                (omega arith) (λ e. ap (λ j. s.cache (s.lh.block j)) (omega arith))
                (λ e.
                  update_ne s.cache (s.start + t + 1) (s.cache (s.lh.block t))
                    (s.lh.block (b - s.start - 1))
                    (λ q.
                      apart s.start s.size (s.lh.block (b - s.start - 1)) t
                        (h (b - s.start - 1) (ground (arith, writes-le n (s.power - 1))))
                        (omega arith) (sym q))))
      ]

  -- the cache after the loop of `write_log`
  pub write_log_loop-cache :
      (n t b : ℕ) (s : Log Data)
      → Homes s (t + n)
      → t + n < s.size
      → (write_log_loop n t s).cache b ≡ (
          if within (s.start + t + 1) n b
          then s.cache (s.lh.block (b - s.start - 1))
          else s.cache b)
  unfolding write_log_loop log_block
  write_log_loop-cache zero t b s h fits = ground arith
  write_log_loop-cache (suc n) t b s h fits =
      write_log_loop-cache n (t + 1) b (log_block t s) (λ i c. h i (omega arith)) (omega arith)
      ∙ widen (s.start + t + 1) (s.start + (t + 1) + 1) n b _ (s.cache (s.lh.block t))
          (s.cache (s.lh.block (b - s.start - 1))) (s.cache b) (omega arith)
          (λ e. ap (λ j. s.cache (s.lh.block j)) (omega arith))
          (λ e.
            update_ne s.cache (s.start + t + 1) (s.cache (s.lh.block t))
              (s.lh.block (b - s.start - 1))
              (λ q.
                apart s.start s.size (s.lh.block (b - s.start - 1)) t
                  (h (b - s.start - 1) (ground arith)) (omega arith) (sym q)))

  -- what the loops leave alone, and the writes that they use up
  pub record Kept (s s' : Log Data) (n : ℕ) : Type 0 where
    pub start : s'.start ≡ s.start
    pub size : s'.size ≡ s.size
    pub lh : s'.lh ≡ s.lh
    pub head : s'.head ≡ s.head
    pub power : s'.power ≡ s.power - n

  pub write_log_loop-Kept : (n t : ℕ) (s : Log Data) → Kept s (write_log_loop n t s) n
  unfolding write_log_loop log_block
  write_log_loop-Kept zero t s = record {
    start = refl;
    size = refl;
    lh = refl;
    head = refl;
    power = omega arith;
  }
  write_log_loop-Kept (suc n) t s =
      let k = write_log_loop-Kept n (t + 1) (log_block t s) in
      record {
        start = k.start;
        size = k.size;
        lh = k.lh;
        head = k.head;
        power = omega (arith, k.power);
      }

  pub install_loop-Kept : (r : Bool) (n t : ℕ) (s : Log Data) → Kept s (install_loop r n t s) n
  unfolding install_loop install_block
  install_loop-Kept r zero t s = record {
    start = refl;
    size = refl;
    lh = refl;
    head = refl;
    power = omega arith;
  }
  install_loop-Kept r (suc n) t s =
      let k = install_loop-Kept r n (t + 1) (install_block r t s) in
      record {
        start = k.start;
        size = k.size;
        lh = k.lh;
        head = k.head;
        power = omega (arith, k.power);
      }
