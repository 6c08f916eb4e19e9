-- ===== src/Bio.antt =====
-- kernel/bio.c: the cache of disk blocks. A buffer has its index as its address, and the list's head
-- the number behind the last; `next` and `prev` are the fields of these names. The contents of a
-- block are a value. What other processes do while a call sleeps, waiting for the lock of a buffer,
-- is a list of functions on the cache, one for each sleep; a call that is still asleep at the end of
-- the list gives `none`.
pub mod Ring
pub mod Order
pub mod Lru
mod Checks
use os2025_assignment.Base.{
  ℕ, zero, suc, ◌+◌, ◌-◌, ◌%◌, ◌^◌, Bool, true, false, not, ◌&&◌, Option, none, some, List, [], ◌∷◌,
  ◌==◌, if◌then◌else◌, update,
}
use os2025_assignment.Machine.{Cmd, Void, pure, fail, gets, modify, when, ◌>>=◌, ◌>>◌}

abbrev pub nbuf : ℕ
nbuf = 30

-- `&bcache.head`
abbrev pub head : ℕ
head = 30

-- `struct buf`; `locked` is its sleep lock.
pub record Buf : Type 0 where
  pub valid : Bool
  pub dev : ℕ
  pub blockno : ℕ
  pub locked : Bool
  pub refcnt : ℕ
  pub content : ℕ

-- `bcache` and the disk, which `virtio_disk_rw` reads and writes
pub record Cache : Type 0 where
  pub bufs : ℕ → Buf
  pub next : ℕ → ℕ
  pub prev : ℕ → ℕ
  pub disk : ℕ → ℕ → ℕ

abbrev pub set_next : ℕ → ℕ → Cache → Cache
set_next b c s = record s { next = update s.next b c }

abbrev pub set_prev : ℕ → ℕ → Cache → Cache
set_prev b c s = record s { prev = update s.prev b c }

abbrev pub set_buf : ℕ → (Buf → Buf) → Cache → Cache
set_buf b f s = record s { bufs = update s.bufs b (f (s.bufs b)) }

-- the last four assignments of `binit` and of `brelse`
unfoldable pub insert : ℕ → Cache → Cache
insert b s =
    let s1 = set_next b (s.next head) s in
    let s2 = set_prev b head s1 in let s3 = set_prev (s2.next head) b s2 in set_next head b s3

unfoldable pub unlink : ℕ → Cache → Cache
unlink b s = let s1 = set_prev (s.next b) (s.prev b) s in set_next (s1.prev b) (s1.next b) s1

-- the loop, with `n` buffers left from `b` on
unfoldable pub binit_loop : ℕ → ℕ → Cache → Cache
binit_loop zero b s = s
binit_loop (suc n) b s =
    binit_loop n (b + 1) (insert b (set_buf b (λ i. record i { locked = false }) s))

unfoldable pub binit : Cmd Cache Void
binit = modify λ s. binit_loop nbuf 0 (set_next head head (set_prev head head s))

abbrev pub is_for : (ℕ → Buf) → ℕ → ℕ → ℕ → Bool
is_for bufs dev blockno b = ((bufs b).dev == dev) && ((bufs b).blockno == blockno)

abbrev pub is_free : (ℕ → Buf) → ℕ → Bool
is_free bufs b = (bufs b).refcnt == 0

-- Both loops of `bget`: along `link` from `b` on to a buffer that passes the test. The list has
-- `nbuf` buffers, so that a round for each and one for the head are enough.
unfoldable pub scan : ℕ → (ℕ → ℕ) → (ℕ → Bool) → ℕ → Option ℕ
scan zero link test b = none
scan (suc fuel) link test b =
    let rest = scan fuel link test (link b) in
    if b == head then none else if test b then some b else rest

abbrev pub Others : Type 0
Others = Cache → Cache

abbrev pub locked_by : ℕ → Cache → Cache
locked_by b s = set_buf b (λ i. record i { locked = true }) s

-- `acquiresleep(&b->lock)` and the return of the buffer
unfoldable pub lock_buf : List Others → ℕ → Cmd Cache (Option ℕ)
lock_buf [] b = do
  i ← gets λ s. s.bufs b
  if i.locked then pure none else do modify (locked_by b); pure (some b)
lock_buf (others ∷ away) b = do
  i ← gets λ s. s.bufs b
  if i.locked then (do modify others; lock_buf away b) else do modify (locked_by b); pure (some b)

unfoldable pub bget : List Others → ℕ → ℕ → Cmd Cache (Option ℕ)
bget away dev blockno = do
  cached ← gets λ s. scan (nbuf + 1) s.next (is_for s.bufs dev blockno) (s.next head)
  elim cached [
    | some b ↦ do
      modify (set_buf b λ i. record i { refcnt = (i.refcnt + 1) % 2 ^ 32 })
      lock_buf away b
    | none ↦ do
      unused ← gets λ s. scan (nbuf + 1) s.prev (is_free s.bufs) (s.prev head)
      elim unused [
        | some b ↦ do
          modify
              (set_buf b λ i. record i { dev = dev; blockno = blockno; valid = false; refcnt = 1 })
          lock_buf away b
        | none ↦ fail
      ]
  ]

unfoldable pub bread : List Others → ℕ → ℕ → Cmd Cache (Option ℕ)
bread away dev blockno = do
  got ← bget away dev blockno
  elim got [
    | none ↦ pure none
    | some b ↦ do
      i ← gets λ s. s.bufs b
      when (not i.valid) (
          modify
            λ s. set_buf b (λ i. record i { content = s.disk i.dev i.blockno; valid = true }) s)
      pure (some b)
  ]

unfoldable pub bwrite : ℕ → Cmd Cache Void
bwrite b = do
  i ← gets λ s. s.bufs b
  when (not i.locked) fail
  modify λ s. record s { disk = update s.disk i.dev (update (s.disk i.dev) i.blockno i.content) }

unfoldable pub brelse : ℕ → Cmd Cache Void
brelse b = do
  i ← gets λ s. s.bufs b
  when (not i.locked) fail
  modify (set_buf b λ i. record i { locked = false })
  modify (set_buf b λ i. record i { refcnt = (i.refcnt + 2 ^ 32 - 1) % 2 ^ 32 })
  i' ← gets λ s. s.bufs b
  when (i'.refcnt == 0) (do modify (unlink b); modify (insert b))

unfoldable pub bpin : ℕ → Cmd Cache Void
bpin b = modify (set_buf b λ i. record i { refcnt = (i.refcnt + 1) % 2 ^ 32 })

unfoldable pub bunpin : ℕ → Cmd Cache Void
bunpin b = modify (set_buf b λ i. record i { refcnt = (i.refcnt + 2 ^ 32 - 1) % 2 ^ 32 })
