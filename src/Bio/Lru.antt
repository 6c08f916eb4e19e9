-- ===== src/Bio/Lru.antt =====
-- `binit`, `bget` and `brelse` on the list of buffers.
use os2025_assignment.Base.{
  ℕ, zero, suc, ◌+◌, ◌-◌, ◌%◌, ◌^◌, ◌<◌, ◌≡◌, ◌≢◌, refl, ◌∙◌, ap, sym, inl, inr, true, false, not,
  Option, none, some, List, [], ◌∷◌, ◌++◌, length, length-append, ◌==◌, ==_ne, Option-cases,
  Bool-cases, arith, update, update_self, update_ne, update_twice,
}
use os2025_assignment.Machine.{ok, panic, Run, modify, gets, when, fail, Cmd, Void, ◌>>=◌, ◌>>◌}
use os2025_assignment.Bio.{
  nbuf, head, Buf, Cache, set_next, set_prev, set_buf, insert, unlink, binit_loop, binit, is_for,
  is_free, Others, lock_buf, bget, brelse,
}
use os2025_assignment.Bio.Ring.{Fresh, Links-reverse, reverse}
use os2025_assignment.Bio.Order.{
  IsOrder, insert-IsOrder, unlink-IsOrder, Distinct-without, Fresh-ne, length_without,
  binit_loop-IsOrder, count_up, find, scan-find,
}

-- `binit` links the buffers into a list, the last of them first.
pub binit-IsOrder :
    (s : Cache) → (s' : Cache) × (binit s ≡ ok tt s') × IsOrder (count_up nbuf 0 []) s'
unfolding binit
binit-IsOrder s = (
  binit_loop nbuf 0 (set_next head head (set_prev head head s)),
  refl,
  binit_loop-IsOrder nbuf 0 [] (set_next head head (set_prev head head s)) refl refl (λ k h. tt)
      (record {
        links = (update_self s.next head head, update_self s.prev head head);
        head_fresh = tt;
        distinct = tt;
        few = omega arith;
      }),
)

Fresh-snoc : (a b : ℕ) (xs : List ℕ) → Fresh a xs → a ≢ b → Fresh a (xs ++ (b ∷ []))
Fresh-snoc a b [] f e = (e, tt)
Fresh-snoc a b (x ∷ xs) (e', f) e = (e', Fresh-snoc a b xs f e)

Fresh-reverse : (a : ℕ) (xs : List ℕ) → Fresh a xs → Fresh a (reverse xs)
Fresh-reverse a [] f = tt
Fresh-reverse a (x ∷ xs) (e, f) = Fresh-snoc a x (reverse xs) (Fresh-reverse a xs f) e

length-reverse : (xs : List ℕ) → length (reverse xs) ≡ length xs
length-reverse [] = refl
length-reverse (x ∷ xs) = omega (arith, length-append (reverse xs) (x ∷ []), length-reverse xs)

-- What `bget` does once it knows which buffer holds the block, if one does, and which one to
-- recycle: it takes a reference, and then waits for the lock.
abbrev pub take_buf : List Others → Option ℕ → Option ℕ → ℕ → ℕ → Cmd Cache (Option ℕ)
take_buf away (some b) unused dev blockno = do
  modify (set_buf b λ i. record i { refcnt = (i.refcnt + 1) % 2 ^ 32 })
  lock_buf away b
take_buf away none (some b) dev blockno = do
  modify (set_buf b λ i. record i { dev = dev; blockno = blockno; valid = false; refcnt = 1 })
  lock_buf away b
take_buf away none none dev blockno = λ s. panic

-- A call that is to return the buffer `b` returns it locked, or sleeps while others hold its lock; one
-- without a buffer panics.
abbrev pub Locks : Option ℕ → Run Cache (Option ℕ) → Type 0
Locks (some b) (ok (some b') s) = (b' ≡ b) × ((s.bufs b).locked ≡ true)
Locks (some b) (ok none s) = (s.bufs b).locked ≡ true
Locks (some b) panic = ⊥
Locks none (ok r s) = ⊥
Locks none panic = Unit {0}

lock_buf-Locks : (away : List Others) (b : ℕ) (s : Cache) → Locks (some b) (lock_buf away b s)
unfolding lock_buf
lock_buf-Locks [] b s = elim (Bool-cases (s.bufs b).locked) [
  | inl e ↦ rw e e
  | inr e ↦
      rw e (refl, ap (λ i. i.locked) (update_self s.bufs b (record (s.bufs b) { locked = true })))
]
lock_buf-Locks (others ∷ away) b s = elim (Bool-cases (s.bufs b).locked) [
  | inl e ↦ rw e (lock_buf-Locks away b (others s))
  | inr e ↦
      rw e (refl, ap (λ i. i.locked) (update_self s.bufs b (record (s.bufs b) { locked = true })))
]

-- the buffer that holds the block, and without one, the one to recycle
abbrev pub chosen : Option ℕ → Option ℕ → Option ℕ
chosen (some b) unused = some b
chosen none unused = unused

take_buf-Locks :
    (away : List Others) (cached unused : Option ℕ) (dev blockno : ℕ) (s : Cache)
    → Locks (chosen cached unused) (take_buf away cached unused dev blockno s)
take_buf-Locks away (some b) unused dev blockno s = lock_buf-Locks away b _
take_buf-Locks away none (some b) dev blockno s = lock_buf-Locks away b _
take_buf-Locks away none none dev blockno s = tt

-- the part of `bget_lem` on the scans
bget-take_buf :
    (xs : List ℕ) (away : List Others) (dev blockno : ℕ) (s : Cache)
    → IsOrder xs s
    → bget away dev blockno s
      ≡ take_buf away
          (find (is_for s.bufs dev blockno) xs)
          (find (is_free s.bufs) (reverse xs))
          dev
          blockno
          s
unfolding bget
bget-take_buf xs away dev blockno s o =
    let few = o.few in
    let e =
      scan-find (nbuf + 1) head xs s.next s.prev (is_for s.bufs dev blockno) (omega arith)
        o.head_fresh o.links in
    let e' =
      scan-find (nbuf + 1) head (reverse xs) s.prev s.next (is_free s.bufs)
        (omega (arith, length-reverse xs)) (Fresh-reverse head xs o.head_fresh)
        (Links-reverse s.next s.prev head head xs o.links) in
    elim (Option-cases (find (is_for s.bufs dev blockno) xs)) [
      | inr (b, q) ↦ rw (e, q) refl
      | inl q ↦ elim (Option-cases (find (is_free s.bufs) (reverse xs))) [
        | inr (b, r) ↦ rw (e, q, e', r) refl
        | inl r ↦ rw (e, q, e', r) refl
      ]
    ]

-- In a list of buffers that is in order, `bget` takes the first buffer in the order of use that
-- holds the block, and with none, the last one that is not in use: the least recently used. It takes
-- a reference to it and then its lock, for which it sleeps as long as others hold it: it returns the
-- buffer, locked, or still sleeps at the end of the list of sleeps, and panics just if there is no
-- such buffer.
pub bget_lem :
    (xs : List ℕ) (away : List Others) (dev blockno : ℕ) (s : Cache)
    → IsOrder xs s
    → let cached = find (is_for s.bufs dev blockno) xs in
      let unused = find (is_free s.bufs) (reverse xs) in
      (bget away dev blockno s ≡ take_buf away cached unused dev blockno s)
      × Locks (chosen cached unused) (bget away dev blockno s)
bget_lem xs away dev blockno s o =
    let taken = bget-take_buf xs away dev blockno s o in
    (
      taken,
      rw taken (
          take_buf-Locks away (find (is_for s.bufs dev blockno) xs)
            (find (is_free s.bufs) (reverse xs)) dev blockno s),
    )

-- the order behind the release of `b`, which has `n` references left
abbrev pub order_after : ℕ → ℕ → List ℕ → List ℕ → List ℕ
order_after zero b xs ys = b ∷ (xs ++ ys)
order_after (suc n) b xs ys = xs ++ (b ∷ ys)

bufs-IsOrder :
    (xs : List ℕ) (s : Cache) (f : ℕ → Buf) → IsOrder xs s → IsOrder xs (record s { bufs = f })
bufs-IsOrder xs s f o = record {
  links = o.links;
  head_fresh = o.head_fresh;
  distinct = o.distinct;
  few = o.few;
}

unlocked : Buf → Buf
unlocked i = record i { locked = false }

dropped : Buf → Buf
dropped i = record i { refcnt = (i.refcnt + 2 ^ 32 - 1) % 2 ^ 32 }

-- the buffer with `n` references and no lock
abbrev released : ℕ → ℕ → Cache → Cache
released b n s = set_buf b (λ i. record i { locked = false; refcnt = n }) s

wrapped : (k n : ℕ) → k ≡ suc n → n < 2 ^ 32 - 1 → (k + 2 ^ 32 - 1) % 2 ^ 32 ≡ n
wrapped k n e l = omega arith

drop_lem :
    (b n : ℕ) (s : Cache)
    → (s.bufs b).refcnt ≡ suc n
    → n < 2 ^ 32 - 1
    → set_buf b dropped (set_buf b unlocked s) ≡ released b n s
unfolding dropped unlocked
drop_lem b n s e l =
    ap (λ i. record s { bufs = update (update s.bufs b (unlocked (s.bufs b))) b (dropped i) })
      (update_self s.bufs b (unlocked (s.bufs b)))
    ∙ ap (λ f. record s { bufs = f })
        (update_twice s.bufs b (unlocked (s.bufs b)) (dropped (unlocked (s.bufs b))))
    ∙ ap (λ k. released b k s) (wrapped (s.bufs b).refcnt n e l)

-- what `brelse` does with the list
list_part : ℕ → Cmd Cache Void
list_part b = do
  i ← gets λ s. s.bufs b
  when (i.refcnt == 0) (do modify (unlink b); modify (insert b))

brelse_parts :
    (b : ℕ) (s : Cache)
    → (s.bufs b).locked ≡ true
    → brelse b s ≡ list_part b (set_buf b dropped (set_buf b unlocked s))
unfolding brelse list_part dropped unlocked
brelse_parts b s locked =
    ap
      (λ l.
        (do when (not l) fail; modify (set_buf b unlocked); modify (set_buf b dropped); list_part b)
          s)
      locked

list_part_lem :
    (b n : ℕ) (xs ys : List ℕ) (s : Cache)
    → IsOrder (xs ++ (b ∷ ys)) s
    → (s.bufs b).refcnt ≡ n
    → (s' : Cache) × (list_part b s ≡ ok tt s')
      × IsOrder (order_after n b xs ys) s'
      × (s'.bufs ≡ s.bufs)
unfolding list_part unlink insert
list_part_lem b zero xs ys s o e = (
  insert b (unlink b s),
  rw e refl,
  insert-IsOrder b (xs ++ ys) (unlink b s) (let f = o.few in omega (arith, length_without b xs ys))
      (λ q. Fresh-ne head b xs ys o.head_fresh (sym q)) (Distinct-without b xs ys o.distinct).1
      (unlink-IsOrder b xs ys s o),
  refl,
)
list_part_lem b (suc n) xs ys s o e =
    (s, rw (e, ==_ne (suc n) 0 (λ q. absurd (omega arith))) refl, o, refl)

-- Releasing a locked buffer unlocks it and drops one reference. With the last reference the buffer
-- moves to the front of the order of use, and otherwise the order stays. The other buffers are as
-- they were.
pub brelse_lem :
    (b n : ℕ) (xs ys : List ℕ) (s : Cache)
    → IsOrder (xs ++ (b ∷ ys)) s
    → (s.bufs b).locked ≡ true
    → (s.bufs b).refcnt ≡ suc n
    → n < 2 ^ 32 - 1
    → (s' : Cache) × (brelse b s ≡ ok tt s')
      × IsOrder (order_after n b xs ys) s'
      × (s'.bufs b ≡ record (s.bufs b) { locked = false; refcnt = n })
      × ((j : ℕ) → j ≢ b → s'.bufs j ≡ s.bufs j)
brelse_lem b n xs ys s o locked e l =
    let (s', run, order, same) =
      list_part_lem b n xs ys (released b n s)
        (bufs-IsOrder (xs ++ (b ∷ ys)) s (released b n s).bufs o)
        (ap (λ i. i.refcnt)
          (update_self s.bufs b (record (s.bufs b) { locked = false; refcnt = n }))) in
    (
      s',
      brelse_parts b s locked ∙ ap (list_part b) (drop_lem b n s e l) ∙ run,
      order,
      ap (λ f. f b) same ∙ update_self s.bufs b (record (s.bufs b) { locked = false; refcnt = n }),
      λ j q.
          ap (λ f. f j) same
          ∙ update_ne s.bufs b (record (s.bufs b) { locked = false; refcnt = n }) j q,
    )
