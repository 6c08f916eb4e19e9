-- ===== src/Pipe/Fifo.antt =====
-- The ring of a pipe as a queue of at most PIPESIZE bytes.
use os2025_assignment.Base.{
  ℕ, zero, suc, ◌+◌, ◌-◌, ◌%◌, ◌^◌, ◌≤◌, ◌<◌, ◌≡◌, refl, ◌∙◌, ap, ap₂, ◌≢◌, true, false, not, ◌&&◌,
  ◌||◌, Option, none, some, List, [], ◌∷◌, ◌++◌, arith, inl, inr, ltb, leb, take-nil, take-pos,
  Option-cases, ◌==◌, ==_self, if◌then◌else◌, Bool-cases, update, update_ne, length, take,
}
use mathlib.Core.List.{append-nil, append_assoc}
use os2025_assignment.Pipe.{
  pipesize, Pipe, PipeState, add32, is_full, is_drained, put_byte, get_byte, WriteStop, finished,
  blocked, write_bytes,
}

-- how many bytes are in the pipe
abbrev pub count : Pipe → ℕ
count p = (p.nwrite + 2 ^ 32 - p.nread) % 2 ^ 32

pub record IsValid (p : Pipe) : Type 0 where
  pub nread_small : p.nread < 2 ^ 32
  pub nwrite_small : p.nwrite < 2 ^ 32
  pub fits : count p ≤ pipesize

-- the `n` bytes from the position `r` on
abbrev pub window : (ℕ → ℕ) → ℕ → ℕ → List ℕ
window ring r zero = []
window ring r (suc n) = ring (r % pipesize) ∷ window ring (add32 r 1) n

abbrev pub contents : Pipe → List ℕ
contents p = window p.ring p.nread (count p)

-- The full and the empty ring are told apart by the counters.
pub is_full_iff : (p : Pipe) → IsValid p → is_full p ≡ (count p == pipesize)
is_full_iff p v = ground arith

pub is_drained_iff : (p : Pipe) → IsValid p → is_drained p ≡ (count p == 0)
is_drained_iff p v = ground arith

window-put :
    (ring : ℕ → ℕ) (ch n r w : ℕ)
    → r < 2 ^ 32
    → n < pipesize
    → w ≡ (r + n) % 2 ^ 32
    → window (update ring (w % pipesize) ch) r (suc n) ≡ window ring r n ++ (ch ∷ [])
window-put ring ch zero r w hr hn e =
    let same : w % pipesize ≡ r % pipesize = omega arith in rw (same, ==_self (r % pipesize))
window-put ring ch (suc n) r w hr hn e =
    ap₂ ◌∷◌ (update_ne ring (w % pipesize) ch (r % pipesize) (omega arith))
      (window-put ring ch n (add32 r 1) w (omega arith) (omega arith) (omega arith))

-- Putting a byte into a pipe that is not full appends it to the contents, and keeps the pipe valid.
pub put_byte-contents :
    (ch : ℕ) (p : Pipe)
    → IsValid p
    → count p ≢ pipesize
    → (contents (put_byte ch p) ≡ contents p ++ (ch ∷ [])) × IsValid (put_byte ch p)
unfolding put_byte
put_byte-contents ch p v h =
    let more : count (put_byte ch p) ≡ suc (count p) = omega arith in
    (
      rw more (
          window-put p.ring ch (count p) p.nread p.nwrite v.nread_small (omega arith)
            (omega arith)),
      omega arith,
    )

still_open : (ch : ℕ) (p : Pipe) → p.readopen ≡ true → (put_byte ch p).readopen ≡ true
unfolding put_byte
still_open ch p h = h

goes_on :
    (s : PipeState)
    → s.pipe.readopen ≡ true
    → s.killed ≡ false
    → (not s.pipe.readopen || s.killed) ≡ false
goes_on s o a = ground arith

one_less :
    (ch : ℕ) (p : Pipe)
    → IsValid p
    → count p ≢ pipesize
    → pipesize - count (put_byte ch p) ≡ pipesize - count p - 1
unfolding put_byte
one_less ch p v h = omega arith

-- the window of a positive size
window_pos :
    (ring : ℕ → ℕ) (r n : ℕ)
    → n ≢ 0
    → window ring r n ≡ ring (r % pipesize) ∷ window ring (add32 r 1) (n - 1)
window_pos ring r zero h = absurd (h refl)
window_pos ring r (suc n) h = ap (λ k. window ring r (suc k)) (omega arith)

-- Getting a byte from a pipe that is not empty takes off the first of the contents.
pub get_byte-contents :
    (p : Pipe)
    → IsValid p
    → count p ≢ 0
    → (contents p ≡ (get_byte p).0 ∷ contents (get_byte p).1) × IsValid (get_byte p).1
unfolding get_byte
get_byte-contents p v h =
    let less : count (get_byte p).1 ≡ count p - 1 = omega arith in
    (
      window_pos p.ring p.nread (count p) h
          ∙ ap (λ n. p.ring (p.nread % pipesize) ∷ window p.ring (add32 p.nread 1) n) (omega arith),
      omega arith,
    )

length-window : (ring : ℕ → ℕ) (r n : ℕ) → length (window ring r n) ≡ n
length-window ring r zero = refl
length-window ring r (suc n) = ap suc (length-window ring (add32 r 1) n)

module _ (copyin : ℕ → Option ℕ) (addr : ℕ) where
  -- the bytes at the user's addresses `addr + i` and following, while they can be read, at most `n`
  unfoldable pub source : ℕ → ℕ → List ℕ
  source zero i = []
  source (suc n) i = elim (copyin (addr + i)) [ none ↦ [] | some ch ↦ ch ∷ source n (i + 1) ]

  source-none : (n i : ℕ) → copyin (addr + i) ≡ none → source (suc n) i ≡ []
  unfolding source
  source-none n i e = rw (e, source)

  source-some :
      (n i ch : ℕ) → copyin (addr + i) ≡ some ch → source (suc n) i ≡ ch ∷ source n (i + 1)
  unfolding source
  source-some n i ch e = rw (e, source)

  -- where the loop stops with room for `free` more bytes: at a full pipe, or at the end of the bytes
  abbrev pub stop_at : ℕ → ℕ → ℕ → ℕ → WriteStop
  stop_at free available left i =
      if ltb free left && leb free available
      then blocked (i + free) (left - free)
      else finished (i + available)

  stop_step :
      (free available left i : ℕ)
      → free ≢ 0
      → stop_at (free - 1) available left (i + 1) ≡ stop_at free (suc available) (suc left) i
  stop_step free available left i h = ground arith

  -- While the read end is open and the caller is not killed, the loop of `pipewrite` puts as many
  -- bytes into the pipe as there is room for and the caller's memory gives, in order and behind what
  -- is there, and keeps the pipe valid. It has to sleep exactly if it is at a full pipe with bytes to
  -- go, and else is done with the bytes that it could read.
  pub write_bytes-contents :
      (left i : ℕ) (s : PipeState)
      → IsValid s.pipe
      → s.pipe.readopen ≡ true
      → s.killed ≡ false
      → (contents (write_bytes copyin addr left i s).1.pipe
          ≡ contents s.pipe ++ take (pipesize - count s.pipe) (source left i))
        × IsValid (write_bytes copyin addr left i s).1.pipe
        × ((write_bytes copyin addr left i s).0
            ≡ stop_at (pipesize - count s.pipe) (length (source left i)) left i)
  unfolding write_bytes source
  write_bytes-contents zero i s v o a =
      (rw (take-nil ℕ (pipesize - count s.pipe), append-nil), v, ground arith)
  write_bytes-contents (suc left) i s v o a = elim (Bool-cases (is_full s.pipe)) [
    | inl full ↦
        let none_free : pipesize - count s.pipe ≡ 0 = ground arith in
        rw (goes_on s o a, full, none_free) (rw append-nil, v, ground arith)
    | inr room ↦
        let some_free : count s.pipe ≢ pipesize = ground arith in
        elim (Option-cases (copyin (addr + i))) [
          | inl bad ↦
              rw (goes_on s o a, room, bad, source-none left i bad)
                (rw (take-nil ℕ (pipesize - count s.pipe), append-nil), v, ground arith)
          | inr (ch, good) ↦
              let put = put_byte-contents ch s.pipe v some_free in
              let later =
                write_bytes-contents left (i + 1) (record s { pipe = put_byte ch s.pipe }) put.1
                  (still_open ch s.pipe o) a in
              rw (goes_on s o a, room, good, source-some left i ch good)
                (
                  later.0
                      ∙ rw
                          (
                            one_less ch s.pipe v some_free,
                            put.0,
                            take-pos (pipesize - count s.pipe) ch (source left (i + 1))
                                (omega arith),
                          )
                          (append_assoc (contents s.pipe) (ch ∷ []) _),
                  later.1,
                  later.2
                      ∙ rw (one_less ch s.pipe v some_free) (
                          stop_step (pipesize - count s.pipe) (length (source left (i + 1))) left i
                            (omega arith)),
                )
        ]
  ]
