-- ===== src/Pipe.antt =====
-- kernel/pipe.c: the ring of a pipe, and `pipewrite` and `piperead` on it. What the other threads do
-- while a call sleeps is a list of functions on the state, one for each sleep; a call that is still
-- asleep at the end of the list is `asleep`.
pub mod Fifo
pub mod Read
mod Checks
use os2025_assignment.Base.{
  ℕ, zero, suc, ◌+◌, ◌-◌, ◌%◌, ◌^◌, Bool, true, false, not, ◌&&◌, ◌||◌, Option, none, some, List,
  [], ◌∷◌, ◌++◌, ◌==◌, if◌then◌else◌, update,
}

abbrev pub pipesize : ℕ
pipesize = 512

-- `&pi->nread` and `&pi->nwrite`, as channels
pub data Chan : Type 0 where
  nread_chan nwrite_chan : Chan

pub record Pipe : Type 0 where
  pub ring : ℕ → ℕ
  pub nread : ℕ
  pub nwrite : ℕ
  pub readopen : Bool
  pub writeopen : Bool

-- The pipe, `killed(pr)` of the calling process, and the channels that `wakeup` was called for, the
-- last one first.
pub record PipeState : Type 0 where
  pub pipe : Pipe
  pub killed : Bool
  pub woken : List Chan

abbrev pub Others : Type 0
Others = PipeState → PipeState

abbrev pub wake : Chan → PipeState → PipeState
wake c s = record s { woken = c ∷ s.woken }

-- `uint` addition
abbrev pub add32 : ℕ → ℕ → ℕ
add32 a b = (a + b) % 2 ^ 32

unfoldable pub pipeopen : Pipe → Pipe
pipeopen p = record p { readopen = true; writeopen = true; nwrite = 0; nread = 0 }

-- The second component says that the page goes back to `kfree`.
unfoldable pub pipeclose : Bool → PipeState → PipeState × Bool
pipeclose writable s =
    let s' =
      if writable
      then wake nread_chan (record s { pipe = record s.pipe { writeopen = false } })
      else wake nwrite_chan (record s { pipe = record s.pipe { readopen = false } }) in
    (s', not s'.pipe.readopen && not s'.pipe.writeopen)

abbrev pub is_full : Pipe → Bool
is_full p = p.nwrite == add32 p.nread pipesize

abbrev pub is_drained : Pipe → Bool
is_drained p = p.nread == p.nwrite

-- `pi->data[pi->nwrite++ % PIPESIZE] = ch`
unfoldable pub put_byte : ℕ → Pipe → Pipe
put_byte ch p = record p {
  ring = update p.ring (p.nwrite % pipesize) ch;
  nwrite = add32 p.nwrite 1;
}

-- `pi->data[pi->nread++ % PIPESIZE]`
unfoldable pub get_byte : Pipe → ℕ × Pipe
get_byte p = (p.ring (p.nread % pipesize), record p { nread = add32 p.nread 1 })

-- How the loop of `pipewrite` stops: it is done after `i` bytes, it returns -1, or it has to sleep
-- after `i` bytes with `left` to go.
pub data WriteStop : Type 0 where
  finished : ℕ → WriteStop
  broken : WriteStop
  blocked : (i left : ℕ) → WriteStop

pub data Outcome : Type 0 where
  returned : Option ℕ → Outcome
  asleep : Outcome

module _ (copyin : ℕ → Option ℕ) (addr : ℕ) where
  -- `copyin a` is the byte at the user's address `a`. `left` bytes are to be written after `i`.
  unfoldable pub write_bytes : ℕ → ℕ → PipeState → WriteStop × PipeState
  write_bytes zero i s = (finished i, s)
  write_bytes (suc left) i s =
      if not s.pipe.readopen || s.killed
      then (broken, s)
      else if is_full s.pipe
      then (blocked i (suc left), s)
      else elim (copyin (addr + i)) [
        | none ↦ (finished i, s)
        | some ch ↦ write_bytes left (i + 1) (record s { pipe = put_byte ch s.pipe })
      ]

  unfoldable pub write_loop : List Others → ℕ → ℕ → PipeState → Outcome × PipeState
  write_loop [] left i s = elim ((write_bytes left i s).0) [
    | finished j ↦ (returned (some j), wake nread_chan (write_bytes left i s).1)
    | broken ↦ (returned none, (write_bytes left i s).1)
    | blocked j r ↦ (asleep, wake nread_chan (write_bytes left i s).1)
  ]
  write_loop (others ∷ away) left i s = elim ((write_bytes left i s).0) [
    | finished j ↦ (returned (some j), wake nread_chan (write_bytes left i s).1)
    | broken ↦ (returned none, (write_bytes left i s).1)
    | blocked j r ↦ write_loop away r j (others (wake nread_chan (write_bytes left i s).1))
  ]

  unfoldable pub pipewrite : List Others → ℕ → PipeState → Outcome × PipeState
  pipewrite away n s = write_loop away n 0 s

module _ (copyout : ℕ → Bool) (addr : ℕ) where
  -- The loop at `piperead-copy`: how many bytes were copied, which, and the pipe. `copyout a` tells
  -- whether the user's address `a` can be written; if not, the byte is gone.
  unfoldable pub read_bytes : ℕ → ℕ → Pipe → ℕ × List ℕ × Pipe
  read_bytes zero i p = (i, [], p)
  read_bytes (suc left) i p =
      let (ch, p') = get_byte p in
      let rest = read_bytes left (i + 1) p' in
      let copied : ℕ × List ℕ × Pipe = (rest.0, ch ∷ rest.1, rest.2) in
      let lost : ℕ × List ℕ × Pipe = (i, [], p') in
      if is_drained p then (i, [], p) else if copyout (addr + i) then copied else lost

  -- behind the first loop
  unfoldable pub read_out : ℕ → PipeState → Outcome × List ℕ × PipeState
  unfolding read_bytes
  read_out n s =
      let (i, bytes, p) = read_bytes n 0 s.pipe in
      (returned (some i), bytes, wake nwrite_chan (record s { pipe = p }))

  unfoldable pub piperead : List Others → ℕ → PipeState → Outcome × List ℕ × PipeState
  unfolding read_out
  piperead [] n s =
      if is_drained s.pipe && s.pipe.writeopen
      then (if s.killed then (returned none, [], s) else (asleep, [], s))
      else read_out n s
  piperead (others ∷ away) n s =
      let later = piperead away n (others s) in
      if is_drained s.pipe && s.pipe.writeopen
      then (if s.killed then (returned none, [], s) else later)
      else read_out n s
