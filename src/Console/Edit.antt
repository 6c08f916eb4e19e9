-- ===== src/Console/Edit.antt =====
-- The input interrupt keeps the three indices in order.
use os2025_assignment.Base.{
  ℕ, zero, suc, ◌%◌, ◌^◌, ◌≤◌, ◌<◌, ◌≡◌, true, inl, inr, ◌&&◌, ◌||◌, arith, ltb, ◌==◌, ◌/=◌,
  Bool-cases,
}
use os2025_assignment.Console.{Cons, input_buf_size, sub32, erase, kill_line, store, consoleintr}

-- From `r` on come the bytes up to `w`, which can be read, and up to `e`, which can be edited, and
-- they fit into the buffer.
pub record IsOrdered (s : Cons) : Type 0 where
  pub r_small : s.r < 2 ^ 32
  pub w_small : s.w < 2 ^ 32
  pub e_small : s.e < 2 ^ 32
  pub w_e : sub32 s.w s.r ≤ sub32 s.e s.r
  pub fits : sub32 s.e s.r ≤ input_buf_size

erase-IsOrdered : (s : Cons) → IsOrdered s → (s.e /= s.w) ≡ true → IsOrdered (erase s)
unfolding erase
erase-IsOrdered s v h = record {
  r_small = v.r_small;
  w_small = v.w_small;
  e_small = omega arith;
  w_e = ground arith;
  fits = ground arith;
}

kill_line-IsOrdered : (n : ℕ) (s : Cons) → IsOrdered s → IsOrdered (kill_line n s)
unfolding kill_line
kill_line-IsOrdered zero s v = v
kill_line-IsOrdered (suc n) s v = elim (Bool-cases (s.e /= s.w)) [
  | inr same ↦ rw same v
  | inl other ↦ elim (Bool-cases (s.buf (sub32 s.e 1 % input_buf_size) /= b'\n')) [
    | inr stop ↦ rw (other, stop) v
    | inl go ↦ rw (other, go) (kill_line-IsOrdered n (erase s) (erase-IsOrdered s v other))
  ]
]

store-IsOrdered :
    (c : ℕ) (s : Cons) → IsOrdered s → sub32 s.e s.r < input_buf_size → IsOrdered (store c s)
unfolding store
store-IsOrdered c s v h = record {
  r_small = v.r_small;
  w_small = ground arith;
  e_small = omega arith;
  w_e = ground arith;
  fits = omega arith;
}

-- Whatever byte comes in, the indices stay in order: the bytes that can be read are a first part of
-- those from `r` to `e`, and these fit into the buffer.
pub consoleintr-IsOrdered : (c : ℕ) (s : Cons) → IsOrdered s → IsOrdered (consoleintr c s)
unfolding consoleintr
consoleintr-IsOrdered c s v = elim (Bool-cases (c == 16)) [
  | inl p ↦ rw p v
  | inr p ↦ elim (Bool-cases (c == 21)) [
    | inl u ↦ rw (p, u) (kill_line-IsOrdered (sub32 s.e s.w) s v)
    | inr u ↦ elim (Bool-cases ((c == 8) || (c == 127))) [
      | inl h ↦ elim (Bool-cases (s.e /= s.w)) [
        | inl ne ↦ rw (p, u, h, ne) (erase-IsOrdered s v ne)
        | inr eq ↦ rw (p, u, h, eq) v
      ]
      | inr h ↦ elim (Bool-cases ((c /= 0) && ltb (sub32 s.e s.r) input_buf_size)) [
        | inl room ↦ rw (p, u, h, room) (store-IsOrdered c s v (ground arith))
        | inr full ↦ rw (p, u, h, full) v
      ]
    ]
  ]
]
