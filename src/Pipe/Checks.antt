-- ===== src/Pipe/Checks.antt =====
-- The theorems about kernel/pipe.c at a ring whose counters are about to wrap round.
use os2025_assignment.Base.{
  ℕ, ◌-◌, ◌^◌, ◌==◌, ◌≡◌, refl, true, false, Option, some, [], ◌∷◌, ◌++◌, arith, min, take, drop,
  length, update,
}
use os2025_assignment.Pipe.{pipesize, Pipe, PipeState, nwrite_chan, write_bytes, piperead, returned}
use os2025_assignment.Pipe.Fifo.{IsValid, count, contents, source, stop_at, write_bytes-contents}
use os2025_assignment.Pipe.Read.{piperead-contents}

-- It holds the bytes 10 and 11, and the next write counter is 0.
abbrev wrapping : Pipe
wrapping = record {
  ring = update (update (λ _. 0) 510 10) 511 11;
  nread = 2 ^ 32 - 2;
  nwrite = 0;
  readopen = true;
  writeopen = true;
}

abbrev state : PipeState
state = record { pipe = wrapping; killed = false; woken = [] }

wrapping-IsValid : IsValid wrapping
wrapping-IsValid = omega arith

-- a user memory that holds its own addresses
abbrev bytes_at : ℕ → Option ℕ
bytes_at a = some a

write_bytes-contents_example :
    (contents (write_bytes bytes_at 40 3 0 state).1.pipe
      ≡ contents wrapping ++ take (pipesize - count wrapping) (source bytes_at 40 3 0))
    × IsValid (write_bytes bytes_at 40 3 0 state).1.pipe
    × ((write_bytes bytes_at 40 3 0 state).0
        ≡ stop_at bytes_at 40 (pipesize - count wrapping) (length (source bytes_at 40 3 0)) 3 0)
write_bytes-contents_example = write_bytes-contents bytes_at 40 3 0 state wrapping-IsValid refl refl

piperead-contents_example :
    (s' : PipeState) × (piperead (λ a. a == 40) 40 [] 1 state
      ≡ (returned (some (min 1 (count wrapping))), take 1 (contents wrapping), s'))
    × (contents s'.pipe ≡ drop 1 (contents wrapping))
    × (s'.woken ≡ nwrite_chan ∷ [])
piperead-contents_example =
    piperead-contents (λ a. a == 40) 40 1 [] state wrapping-IsValid (λ j g l. ground arith) refl
