-- ===== src/Bio/Checks.antt =====
-- A list of two buffers: the buffer 1, which holds block 7, was used last.
use os2025_assignment.Base.{
  ℕ, ◌≡◌, ◌≢◌, refl, Bool, true, false, [], ◌∷◌, Option, some, none, ◌==◌, if◌then◌else◌, arith,
}
use os2025_assignment.Machine.{ok, panic, Run}
use os2025_assignment.Bio.{nbuf, Buf, Cache, Others, set_buf, scan, lock_buf, binit, bget, brelse}
use os2025_assignment.Bio.Order.{IsOrder, count_up}
use os2025_assignment.Bio.Lru.{take_buf, Locks, binit-IsOrder, bget_lem, brelse_lem}

abbrev buffer : ℕ → ℕ → Bool → Buf
buffer blockno refcnt locked = record {
  valid = false;
  dev = 1;
  blockno = blockno;
  locked = locked;
  refcnt = refcnt;
  content = 0;
}

abbrev two : Cache
two = record {
  bufs = λ b. if b == 0 then buffer 8 1 true else buffer 7 0 false;
  next = λ b. if b == 30 then 1 else if b == 1 then 0 else 30;
  prev = λ b. if b == 30 then 0 else if b == 0 then 1 else 30;
  disk = λ _ _. 0;
}

two-IsOrder : IsOrder (1 ∷ 0 ∷ []) two
two-IsOrder = record {
  links = (refl, refl, (refl, refl, (refl, refl)));
  head_fresh = ((λ e. absurd (omega arith)), ((λ e. absurd (omega arith)), tt));
  distinct = (((λ e. absurd (omega arith)), tt), (tt, tt));
  few = omega arith;
}

binit-IsOrder_example : (s' : Cache) × (binit two ≡ ok tt s') × IsOrder (count_up nbuf 0 []) s'
binit-IsOrder_example = binit-IsOrder two

-- another process that releases buffer 0 during the sleep
abbrev release : Others
release s = set_buf 0 (λ i. record i { locked = false }) s

-- Block 8 is in buffer 0, which is locked.
bget_lem_example :
    (bget (release ∷ []) 1 8 two ≡ take_buf (release ∷ []) (some 0) (some 1) 1 8 two)
    × Locks (some 0) (bget (release ∷ []) 1 8 two)
bget_lem_example = bget_lem (1 ∷ 0 ∷ []) (release ∷ []) 1 8 two two-IsOrder

result : Run Cache (Option ℕ) → Option ℕ
result panic = none
result (ok b s) = b

woken : result (bget (release ∷ []) 1 8 two) ≡ some 0
unfolding result bget scan lock_buf
woken = refl

brelse_lem_example :
    (s' : Cache) × (brelse 0 two ≡ ok tt s')
    × IsOrder (0 ∷ 1 ∷ []) s'
    × (s'.bufs 0 ≡ buffer 8 0 false)
    × ((j : ℕ) → j ≢ 0 → s'.bufs j ≡ two.bufs j)
brelse_lem_example = brelse_lem 0 0 (1 ∷ []) [] two two-IsOrder refl refl (omega arith)
