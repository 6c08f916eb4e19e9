-- ===== src/Console.antt =====
-- kernel/console.c: the line editor of the console. The lock is held inside each function, or until
-- it sleeps. The indices `r`, `w` and `e` are unsigned 32-bit numbers; what is echoed is a list, the
-- last byte first.
pub mod Edit
mod Checks
use os2025_assignment.Base.{
  ℕ, zero, suc, ◌+◌, ◌-◌, ◌%◌, ◌^◌, Bool, true, false, not, ◌&&◌, ◌||◌, Option, none, some, List,
  [], ◌∷◌, ◌++◌, ltb, ◌==◌, ◌/=◌, if◌then◌else◌, update,
}

abbrev pub input_buf_size : ℕ
input_buf_size = 128

-- `woken` tells whether `consoleread` was woken.
pub record Cons : Type 0 where
  pub buf : ℕ → ℕ
  pub r : ℕ
  pub w : ℕ
  pub e : ℕ
  pub echo : List ℕ
  pub woken : Bool
  pub killed : Bool

abbrev pub add32 : ℕ → ℕ → ℕ
add32 a b = (a + b) % 2 ^ 32

abbrev pub sub32 : ℕ → ℕ → ℕ
sub32 a b = (a + 2 ^ 32 - b) % 2 ^ 32

-- `cons.e--` and `consputc(BACKSPACE)`
unfoldable pub erase : Cons → Cons
erase s = record s { e = sub32 s.e 1; echo = b'\x08' ∷ b' ' ∷ b'\x08' ∷ s.echo }

-- The loop of the case C('U'), in which the distance from `w` to `e` falls by one in each round.
unfoldable pub kill_line : ℕ → Cons → Cons
kill_line zero s = s
kill_line (suc n) s =
    let rest = kill_line n (erase s) in
    if (s.e /= s.w) && (s.buf (sub32 s.e 1 % input_buf_size) /= b'\n') then rest else s

-- the default case, for a byte that is stored
unfoldable pub store : ℕ → Cons → Cons
store c s =
    let c' = if c == b'\r' then b'\n' else c in
    let e' = add32 s.e 1 in
    let ends = (c' == b'\n') || ((c' == 4) || (sub32 e' s.r == input_buf_size)) in
    record s {
      echo = c' ∷ s.echo;
      buf = update s.buf (s.e % input_buf_size) c';
      e = e';
      w = if ends then e' else s.w;
      woken = if ends then true else s.woken;
    }

-- C('P') only prints.
unfoldable pub consoleintr : ℕ → Cons → Cons
consoleintr c s =
    if c == 16
    then s
    else if c == 21
    then kill_line (sub32 s.e s.w) s
    else if (c == 8) || (c == 127)
    then (if s.e /= s.w then erase s else s)
    else if (c /= 0) && ltb (sub32 s.e s.r) input_buf_size
    then store c s
    else s

-- The bytes that `consolewrite` gives to the device, with `n` left from `i` on; `copyin` gives the
-- byte at an address if it can be read.
unfoldable pub consolewrite : (ℕ → Option ℕ) → ℕ → ℕ → ℕ → List ℕ
consolewrite copyin src zero i = []
consolewrite copyin src (suc n) i = elim (copyin (src + i)) [
  | none ↦ []
  | some c ↦ c ∷ consolewrite copyin src n (i + 1)
]

-- Why the reading stops, with the number of bytes that are left to read: at the end of a line or
-- of the room, or at an empty buffer.
pub data ReadStop : Type 0 where
  done : ℕ → ReadStop
  empty : ℕ → ReadStop

pub data Outcome : Type 0 where
  returned : Option ℕ → Outcome
  asleep : Outcome

-- `copyout a` tells whether the address `a` can be written.
module _ (copyout : ℕ → Bool) (dst target : ℕ) where
  -- the loop of `consoleread` until it has to sleep
  unfoldable pub take_bytes : ℕ → Cons → ReadStop × List ℕ × Cons
  take_bytes zero s = (done 0, [], s)
  take_bytes (suc n) s =
      let c = s.buf (s.r % input_buf_size) in
      let s' = record s { r = add32 s.r 1 } in
      let rest = take_bytes n s' in
      if s.r == s.w
      then (empty (suc n), [], s)
      else if c == 4
      then (done (suc n), [], if ltb (suc n) target then record s' { r = sub32 s'.r 1 } else s')
      else if not (copyout (dst + (target - suc n)))
      then (done (suc n), [], s')
      else if c == b'\n'
      then (done n, c ∷ [], s')
      else (rest.0, c ∷ rest.1, rest.2)

  -- `left` bytes are still to be read. What others do during each sleep is a list of functions.
  unfoldable pub read_loop : List (Cons → Cons) → ℕ → Cons → Outcome × List ℕ × Cons
  read_loop [] left s =
      let (stop, bytes, s') = take_bytes left s in
      elim stop [
        | done n ↦ (returned (some (target - n)), bytes, s')
        | empty n ↦ if s'.killed then (returned none, bytes, s') else (asleep, bytes, s')
      ]
  read_loop (others ∷ away) left s =
      let (stop, bytes, s') = take_bytes left s in
      elim stop [
        | done n ↦ (returned (some (target - n)), bytes, s')
        | empty n ↦
            let (r, more, s'') = read_loop away n (others s') in
            if s'.killed then (returned none, bytes, s') else (r, bytes ++ more, s'')
      ]

unfoldable pub consoleread :
    (ℕ → Bool) → ℕ → ℕ → List (Cons → Cons) → Cons → Outcome × List ℕ × Cons
consoleread copyout dst n away s = read_loop copyout dst n away n s
