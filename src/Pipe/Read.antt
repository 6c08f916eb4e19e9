-- ===== src/Pipe/Read.antt =====
-- What `piperead` takes out of a pipe.
use os2025_assignment.Base.{
  ℕ, zero, suc, ◌+◌, ◌-◌, ◌≤◌, ◌<◌, ◌≡◌, refl, ◌∙◌, ap, ◌≢◌, Bool, true, false, inl, inr, List, [],
  ◌∷◌, arith, min, some, ◌&&◌, Bool-cases, take, drop,
}
use os2025_assignment.Pipe.{
  Pipe, PipeState, Others, nwrite_chan, wake, is_drained, get_byte, read_bytes, read_out, piperead,
  returned,
}
use os2025_assignment.Pipe.Fifo.{IsValid, count, contents, get_byte-contents}

count-get_byte : (p : Pipe) → IsValid p → count p ≢ 0 → count (get_byte p).1 ≡ count p - 1
unfolding get_byte
count-get_byte p v h = omega arith

-- The `n` bytes of user memory from `a` on can be written.
abbrev pub CanWrite : (ℕ → Bool) → ℕ → ℕ → Type 0
CanWrite copyout a n = (j : ℕ) → a ≤ j → j < a + n → copyout j ≡ true

module _ (copyout : ℕ → Bool) (addr : ℕ) where
  read_step :
      (left i : ℕ) (p : Pipe)
      → is_drained p ≡ false
      → copyout (addr + i) ≡ true
      → read_bytes copyout addr (suc left) i p ≡ (
          let rest = read_bytes copyout addr left (i + 1) (get_byte p).1 in
          (rest.0, (get_byte p).0 ∷ rest.1, rest.2))
  unfolding read_bytes
  read_step left i p h can = rw (h, can)

  read_stop :
      (left i : ℕ) (p : Pipe)
      → is_drained p ≡ true
      → read_bytes copyout addr (suc left) i p ≡ (i, [], p)
  unfolding read_bytes
  read_stop left i p h = rw h

  -- If the user memory can be written, the loop that copies bytes out takes the first `left` bytes of the contents, or all of them if
  -- there are fewer, in order; what it leaves are the others.
  pub read_bytes-contents :
      (left i : ℕ) (p : Pipe)
      → IsValid p
      → CanWrite copyout (addr + i) left
      → ((read_bytes copyout addr left i p).0 ≡ i + min left (count p))
        × ((read_bytes copyout addr left i p).1 ≡ take left (contents p))
        × (contents (read_bytes copyout addr left i p).2 ≡ drop left (contents p))
        × IsValid (read_bytes copyout addr left i p).2
  unfolding read_bytes
  read_bytes-contents zero i p v can = (omega arith, refl, refl, v)
  read_bytes-contents (suc left) i p v can = elim (Bool-cases (is_drained p)) [
    | inl empty ↦
        let none_left : count p ≡ 0 = ground arith in
        rw (read_stop left i p empty) (ground arith, rw none_left, rw none_left, v)
    | inr more ↦
        let some_left : count p ≢ 0 = ground arith in
        let got = get_byte-contents p v some_left in
        let rest =
          read_bytes-contents left (i + 1) (get_byte p).1 got.1
            (λ j g l. can j (omega arith) (omega arith)) in
        rw (read_step left i p more (can (addr + i) (omega arith) (omega arith)), got.0)
          (
            rest.0 ∙ omega (arith, count-get_byte p v some_left),
            ap (λ xs. (get_byte p).0 ∷ xs) (rest.1),
            rest.2,
            rest.3,
          )
  ]

  -- If the `n` bytes of user memory can be written, a `piperead` that finds bytes, or a closed write
  -- end, does not sleep: it returns the number of
  -- bytes that it has taken, the first `n` of the contents or all of them, leaves the others in the
  -- pipe, and wakes the writers once. With the write end closed and nothing left it returns 0.
  pub piperead-contents :
      (n : ℕ) (away : List Others) (s : PipeState)
      → IsValid s.pipe
      → CanWrite copyout addr n
      → (is_drained s.pipe && s.pipe.writeopen) ≡ false
      → (s' : PipeState) × (piperead copyout addr away n s
          ≡ (returned (some (min n (count s.pipe))), take n (contents s.pipe), s'))
        × (contents s'.pipe ≡ drop n (contents s.pipe))
        × (s'.woken ≡ nwrite_chan ∷ s.woken)
  unfolding piperead read_out
  piperead-contents n [] s v can h =
      let r = read_bytes-contents n 0 s.pipe v (λ j g l. can j (omega arith) (omega arith)) in
      (
        wake nwrite_chan (record s { pipe = (read_bytes copyout addr n 0 s.pipe).2 }),
        rw (h, r.0, r.1)
            (ap
              (λ k. (
                returned (some k),
                take n (contents s.pipe),
                wake nwrite_chan (record s { pipe = (read_bytes copyout addr n 0 s.pipe).2 }),
              ))
              (omega arith)),
        r.2,
        refl,
      )
  piperead-contents n (others ∷ away) s v can h =
      let r = read_bytes-contents n 0 s.pipe v (λ j g l. can j (omega arith) (omega arith)) in
      (
        wake nwrite_chan (record s { pipe = (read_bytes copyout addr n 0 s.pipe).2 }),
        rw (h, r.0, r.1)
            (ap
              (λ k. (
                returned (some k),
                take n (contents s.pipe),
                wake nwrite_chan (record s { pipe = (read_bytes copyout addr n 0 s.pipe).2 }),
              ))
              (omega arith)),
        r.2,
        refl,
      )
