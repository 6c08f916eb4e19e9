-- ===== src/Fs/Alloc.antt =====
-- Which block `balloc` takes, and that `bmap` is stable.
use os2025_assignment.Base.{
  ℕ, zero, suc, ◌+◌, ◌-◌, ◌≤◌, ◌<◌, ◌≡◌, ◌≢◌, refl, ◌∙◌, ap, inl, inr, ◌⊎◌, true, false, ltb, ◌/=◌,
  ==_self, ==_ne, /=_ne, Bool-cases, arith, update, update_eta, update_twice,
}
use native.Mathlib.Decide.{ℕ_discrete}
use os2025_assignment.Machine.{ok, Run, panic, ◌>>=◌}
use os2025_assignment.Fs.{Fs, ndirect, nindirect, balloc_loop, balloc, bfree, bzero}
use os2025_assignment.Fs.Content.{bmap, indirect_block}

-- the state in which the block is marked and zeroed
abbrev pub marked : ℕ → Fs → Fs
marked b s = record s {
  used = update s.used b true;
  bytes = update s.bytes b (λ _. 0);
  numbers = update s.numbers b (λ _. 0);
}

balloc_loop_lem :
    (n b : ℕ) (s : Fs)
    → ((balloc_loop n b s ≡ ok 0 s) × ((c : ℕ) → b ≤ c → c < b + n → s.used c ≡ true))
      ⊎ ((r : ℕ) × (balloc_loop n b s ≡ ok r (marked r s))
          × (b ≤ r)
          × (r < b + n)
          × (s.used r ≡ false)
          × ((c : ℕ) → b ≤ c → c < r → s.used c ≡ true))
unfolding balloc_loop bzero
balloc_loop_lem zero b s = inl (refl, λ c l h. absurd (omega arith))
balloc_loop_lem (suc n) b s = elim (Bool-cases (s.used b)) [
  | inr free ↦ inr (b, rw free, omega arith, omega arith, free, λ c l h. absurd (omega arith))
  | inl taken ↦ elim (balloc_loop_lem n (b + 1) s) [
    | inl (e, all) ↦ inl (
      rw taken e,
      λ c l h. elim (ℕ_discrete c b) [
        | yes q ↦ ap s.used q ∙ taken
        | no q ↦ all c (omega arith) (omega arith)
      ],
    )
    | inr (r, e, lo, hi, free, all) ↦ inr (
      r,
      rw taken e,
      omega arith,
      omega arith,
      free,
      λ c l h. elim (ℕ_discrete c b) [ yes q ↦ ap s.used q ∙ taken | no q ↦ all c (omega arith) h ],
    )
  ]
]

-- `balloc` takes the first block of the disk that is not in use: it marks it, fills it with zeros,
-- and changes no other block and no other bit. If all blocks are in use, it returns 0 and changes
-- nothing.
pub balloc_lem :
    (s : Fs)
    → ((balloc s ≡ ok 0 s) × ((c : ℕ) → c < s.blocks → s.used c ≡ true))
      ⊎ ((b : ℕ) × (balloc s ≡ ok b (marked b s))
          × (b < s.blocks)
          × (s.used b ≡ false)
          × ((c : ℕ) → c < b → s.used c ≡ true))
unfolding balloc
balloc_lem s = elim (balloc_loop_lem s.blocks 0 s) [
  | inl (e, all) ↦ inl (e, λ c h. all c (omega arith) (omega arith))
  | inr (b, e, lo, hi, free, all) ↦ inr (b, e, omega arith, free, λ c h. all c (omega arith) h)
]

-- A block that `balloc` has taken can be freed again, and the free map is then as it was.
pub balloc-bfree :
    (s : Fs)
    → ((c : ℕ) × (c < s.blocks) × (s.used c ≡ false))
    → (s' : Fs) × ((balloc >>= bfree) s ≡ ok tt s') × (s'.used ≡ s.used)
unfolding bfree
balloc-bfree s (c, h, free) = elim (balloc_lem s) [
  | inl (e, all) ↦ cc (all c h, free)
  | inr (b, e, l, none_, first) ↦ (
    record (marked b s) { used = update (update s.used b true) b false },
    rw (e, ==_self b),
    update_twice s.used b true false ∙ rw (← none_) (update_eta s.used b),
  )
]

-- A block that `bmap` has given is given again, and nothing changes.
abbrev pub Stable : ℕ → ℕ → Run Fs ℕ → Type 0
Stable ip bn panic = Unit
Stable ip bn (ok a s) = a ≢ 0 → bmap ip bn s ≡ ok a s

pub bmap_there :
    (ip bn a : ℕ) (s : Fs)
    → ltb bn ndirect ≡ true
    → (s.itable (ip - 1)).copy.addrs bn ≡ a
    → a ≢ 0
    → bmap ip bn s ≡ ok a s
unfolding bmap
bmap_there ip bn a s e q h = rw (bmap, e, q, /=_ne a 0 h)

bmap_direct : (ip bn : ℕ) (s : Fs) → ltb bn ndirect ≡ true → Stable ip bn (bmap ip bn s)
unfolding bmap
bmap_direct ip bn s e = elim (Bool-cases ((s.itable (ip - 1)).copy.addrs bn /= 0)) [
  | inl u ↦ rw (bmap, e, u) λ h. bmap_there ip bn _ s e refl h
  | inr u ↦ elim (balloc_lem s) [
    | inl (eb, _) ↦ rw (bmap, e, u, eb) λ h. absurd (h refl)
    | inr (b, eb, _, _, _) ↦ elim (ℕ_discrete b 0) [
      | yes b0 ↦ rw (bmap, e, u, eb, b0) λ h. absurd (h refl)
      | no b1 ↦
          rw (bmap, e, u, eb, /=_ne b 0 b1)
            λ h. bmap_there ip bn b _ e (rw (==_self (ip - 1), ==_self bn)) h
    ]
  ]
]

pub there_indirect :
    (ip bn block a : ℕ) (s : Fs)
    → ltb bn ndirect ≡ false
    → ltb (bn - ndirect) nindirect ≡ true
    → (s.itable (ip - 1)).copy.addrs ndirect ≡ block
    → block ≢ 0
    → s.numbers block (bn - ndirect) ≡ a
    → a ≢ 0
    → bmap ip bn s ≡ ok a s
unfolding bmap indirect_block
there_indirect ip bn block a s e e' q h q' h' =
    rw (bmap, e, e', q, /=_ne block 0 h, ==_ne block 0 h, q', /=_ne a 0 h')

abbrev put_indirect : ℕ → ℕ → Fs → Fs
put_indirect ip b s =
    let i = s.itable (ip - 1) in
    record s {
      itable =
          update s.itable (ip - 1)
            (record i { copy = record i.copy { addrs = update i.copy.addrs ndirect b } });
    }

-- The indirect block is there behind `indirect_block`, if the disk is not full.
indirect_block_lem :
    (ip : ℕ) (s : Fs)
    → ((s' : Fs) × (indirect_block ip s ≡ ok 0 s'))
      ⊎ ((block : ℕ) × (s' : Fs) × (indirect_block ip s ≡ ok block s')
          × (block ≢ 0)
          × ((s'.itable (ip - 1)).copy.addrs ndirect ≡ block))
unfolding indirect_block
indirect_block_lem ip s = elim (ℕ_discrete ((s.itable (ip - 1)).copy.addrs ndirect) 0) [
  | no u ↦ inr (
    (s.itable (ip - 1)).copy.addrs ndirect,
    s,
    rw (/=_ne ((s.itable (ip - 1)).copy.addrs ndirect) 0 u),
    u,
    refl,
  )
  | yes u ↦ elim (balloc_lem s) [
    | inl (eb, _) ↦ inl (s, rw (u, eb))
    | inr (b, eb, _, _, _) ↦ elim (ℕ_discrete b 0) [
      | yes b0 ↦ inl (marked 0 s, rw (u, eb, b0))
      | no b1 ↦
          inr
            (b, put_indirect ip b (marked b s), rw (u, eb, /=_ne b 0 b1), b1, rw (==_self (ip - 1)))
    ]
  ]
]

bmap_indirect :
    (ip bn : ℕ) (s : Fs)
    → ltb bn ndirect ≡ false
    → ltb (bn - ndirect) nindirect ≡ true
    → Stable ip bn (bmap ip bn s)
unfolding bmap
bmap_indirect ip bn s e e' = elim (indirect_block_lem ip s) [
  | inl (s', q) ↦ rw (bmap, e, e', q) λ h. absurd (h refl)
  | inr (block, s', q, h, at_) ↦ elim (Bool-cases (s'.numbers block (bn - ndirect) /= 0)) [
    | inl u ↦
        rw (bmap, e, e', q, ==_ne block 0 h, u)
          λ h'. there_indirect ip bn block _ s' e e' at_ h refl h'
    | inr u ↦ elim (balloc_lem s') [
      | inl (eb, _) ↦ rw (bmap, e, e', q, ==_ne block 0 h, u, eb) λ h. absurd (h refl)
      | inr (b, eb, _, _, _) ↦ elim (ℕ_discrete b 0) [
        | yes b0 ↦ rw (bmap, e, e', q, ==_ne block 0 h, u, eb, b0) λ h. absurd (h refl)
        | no b1 ↦
            rw (bmap, e, e', q, ==_ne block 0 h, u, eb, /=_ne b 0 b1)
              λ h'.
                there_indirect ip bn block b _ e e' at_ h
                  (rw (==_self block, ==_self (bn - ndirect))) h'
      ]
    ]
  ]
]

-- If `bmap` gives a block for a position of a file, allocating it or not, then it gives the same one
-- when it is called again, and changes nothing. The position may lie among the direct blocks or in
-- the indirect block, which may have to be allocated too.
pub bmap-Stable : (ip bn : ℕ) (s : Fs) → Stable ip bn (bmap ip bn s)
unfolding bmap indirect_block
bmap-Stable ip bn s = elim (Bool-cases (ltb bn ndirect)) [
  | inl e ↦ bmap_direct ip bn s e
  | inr e ↦ elim (Bool-cases (ltb (bn - ndirect) nindirect)) [
    | inl e' ↦ bmap_indirect ip bn s e e'
    | inr e' ↦ rw (bmap, e, e') tt
  ]
]
