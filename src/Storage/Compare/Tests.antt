-- ===== src/Storage/Compare/Tests.antt =====
-- The theorems on comparison at concrete inputs.
use tiny_sql.Prelude.{◌^◌, ◌-◌, ◌&&◌, true, false, not, some, ◌≡◌, ◌↔◌, arith, ltb, ◌==◌, codes}
use tiny_sql.Storage.Value.{int_value, string_value}
use tiny_sql.Storage.Compare.{Floats, equals, less_than, less_equal, greater_than, greater_equal}
use tiny_sql.Storage.Compare.Order.{compare-IsTotal}

-- Floating-point numbers whose bits are taken for whole numbers.
abbrev pub whole_floats : Floats
whole_floats = record {
  float_lt = ltb;
  float_eq = λ x y. x == y;
  float_text = λ x. codes "float";
  float_nonzero = λ x. not (x == 0);
  stof = λ s. some 0;
  double_lt = ltb;
  double_eq = λ x y. x == y;
  double_text = λ x. codes "double";
  double_nonzero = λ x. not (x == 0);
  stod = λ s. some 0;
}

-- -1 and 5 as 32-bit numbers, and a text.
compare-IsTotal_example :
    (less_than whole_floats (int_value (2 ^ 32 - 1)) (int_value (2 ^ 32 - 1)) ≡ false)
    × ((less_than whole_floats (int_value (2 ^ 32 - 1)) (int_value 5)
          && less_than whole_floats (int_value 5) (string_value (codes "a"))
          && not (less_than whole_floats (int_value (2 ^ 32 - 1)) (string_value (codes "a"))))
        ≡ false)
    × ((equals whole_floats (int_value (2 ^ 32 - 1)) (int_value 5) ≡ true)
        ↔ (int_value (2 ^ 32 - 1) ≡ int_value 5))
    × (greater_than whole_floats (int_value (2 ^ 32 - 1)) (int_value 5)
        ≡ less_than whole_floats (int_value 5) (int_value (2 ^ 32 - 1)))
    × (less_equal whole_floats (int_value (2 ^ 32 - 1)) (int_value 5)
        ≡ not (less_than whole_floats (int_value 5) (int_value (2 ^ 32 - 1))))
    × (greater_equal whole_floats (int_value (2 ^ 32 - 1)) (int_value 5)
        ≡ not (less_than whole_floats (int_value (2 ^ 32 - 1)) (int_value 5)))
compare-IsTotal_example =
    compare-IsTotal whole_floats (int_value (2 ^ 32 - 1)) (int_value 5) (string_value (codes "a"))
      (omega arith) (omega arith) tt
