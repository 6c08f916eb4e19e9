-- ===== src/Console/Checks.antt =====
-- A console with "ab" typed and not yet ended.
use os2025_assignment.Base.{◌+◌, false, arith, []}
use os2025_assignment.Console.{Cons, consoleintr}
use os2025_assignment.Console.Edit.{IsOrdered, consoleintr-IsOrdered}

abbrev typed : Cons
typed = record {
  buf = λ i. b'a' + i;
  r = 0;
  w = 0;
  e = 2;
  echo = [];
  woken = false;
  killed = false;
}

typed-IsOrdered : IsOrdered typed
typed-IsOrdered = record {
  r_small = omega arith;
  w_small = omega arith;
  e_small = omega arith;
  w_e = omega arith;
  fits = omega arith;
}

consoleintr-IsOrdered_example : IsOrdered (consoleintr b'\n' typed)
consoleintr-IsOrdered_example = consoleintr-IsOrdered b'\n' typed typed-IsOrdered
