-- ===== src/Float/Seconds.antt =====
-- Times in whole tenths of a second, for the examples.
use agent_fault_lab.Prelude.{ℕ, true, leb, ltb, ◌+◌, ◌-◌}
use agent_fault_lab.Float.{Float}

abbrev pub seconds : Float ℕ
seconds = record {
  is_finite = λ _. true;
  leb = leb;
  ltb = ltb;
  add = λ a b. a + b;
  sub = λ a b. a - b;
  zero = 0;
  hour = 36000;
  tenths = λ n. n;
}
