-- ===== src/Evaluator/Meaning.antt =====
-- src/storage/expression_evaluator.cpp: a WHERE clause as a truth value, with no errors and no order
-- of evaluation.
use tiny_sql.Prelude.{
  suc, ◌≡◌, refl, sym, ◌∙◌, ap, ap₂, inl, inr, ◌⊎◌, Bool, true, not, ◌&&◌, ◌||◌, some, List, [],
  ◌∷◌, ◌++◌, append_assoc, length-append, if◌then◌else◌, get_elem?, length, Bytes, codes, str_eq,
  Bool-cases, str_eq_iff, arith,
}
use tiny_sql.Ast.{Expression, identifier, number_literal, string_literal, binary}
use tiny_sql.Storage.Value.{Value, null_value, string_value, bool_value, is_null, ColumnDef}
use tiny_sql.Storage.Table.{Row}
use tiny_sql.Storage.Compare.{
  Floats, equals, not_equals, less_than, less_equal, greater_than, greater_equal,
}
use tiny_sql.Evaluator.{
  Result, returned, raised, is_comparison, column_value, evaluate_identifier, evaluate_number,
  compare_values, truth, evaluate_binary, binary_value, evaluate_expression, evaluate_value,
}

-- The value beside the first column with the name.
pub named_value : Bytes → List ColumnDef → Row → Value
named_value name [] row = null_value
named_value name (c ∷ cs) [] = null_value
named_value name (c ∷ cs) (v ∷ vs) =
    let rest = named_value name cs vs in if str_eq c.name name then v else rest

abbrev pub HasColumn : Bytes → List ColumnDef → Type 0
HasColumn name [] = ⊥
HasColumn name (c ∷ cs) = (c.name ≡ name) ⊎ HasColumn name cs

abbrev pub value_or_null : Result Value → Value
value_or_null (returned v) = v
value_or_null (raised e) = null_value

module _ (F : Floats) where
  -- A comparison with NULL never holds.
  pub test_holds : Bytes → Value → Value → Bool
  test_holds op l r =
      (not (is_null l) && not (is_null r))
      && (if str_eq op (codes "=")
          then equals F l r
          else if str_eq op (codes "!=")
          then not_equals F l r
          else if str_eq op (codes "<")
          then less_than F l r
          else if str_eq op (codes ">")
          then greater_than F l r
          else if str_eq op (codes "<=")
          then less_equal F l r
          else greater_equal F l r)

  -- A number that `stod` or `stoll` can read.
  abbrev pub Readable : Bytes → Type 0
  Readable s = (v : Value) × (evaluate_number F s ≡ returned v)

  -- Only columns that there are, numbers that can be read and operators that are supported.
  abbrev pub Supported : List ColumnDef → Expression → Type 0
  Supported columns (identifier name) = HasColumn name columns
  Supported columns (number_literal s) = Readable s
  Supported columns (string_literal s) = Unit
  Supported columns (binary left op right) =
      ((str_eq op (codes "AND") || str_eq op (codes "OR") || is_comparison op) ≡ true)
      × Supported columns left
      × Supported columns right

  abbrev pub binary_holds : Bytes → Value → Value → Bool
  binary_holds op l r =
      if str_eq op (codes "AND")
      then truth F l && truth F r
      else if str_eq op (codes "OR")
      then truth F l || truth F r
      else test_holds op l r

  -- A condition holds where its meaning is true.
  pub meaning : List ColumnDef → Row → Expression → Value
  meaning columns row (identifier name) = named_value name columns row
  meaning columns row (number_literal s) = value_or_null (evaluate_number F s)
  meaning columns row (string_literal s) = string_value s
  meaning columns row (binary left op right) =
      bool_value (binary_holds op (meaning columns row left) (meaning columns row right))

get_elem?-middle :
    (front : Row) (v : Value) (vs : Row) → get_elem? (front ++ v ∷ vs) (length front) ≡ some v
get_elem?-middle [] v vs = refl
get_elem?-middle (w ∷ front) v vs = get_elem?-middle front v vs

column_value-named :
    (name : Bytes) (front row : Row) (columns : List ColumnDef)
    → length row ≡ length columns
    → HasColumn name columns
    → column_value (length front) name (front ++ row) columns
      ≡ returned (named_value name columns row)
unfolding column_value named_value
column_value-named name front row [] h k = absurd k
column_value-named name front [] (c ∷ cs) h k = absurd (omega (arith, h))
column_value-named name front (v ∷ vs) (c ∷ cs) h k = elim (Bool-cases (str_eq c.name name)) [
  | inl e ↦ rw (e, get_elem?-middle front v vs) refl
  | inr e ↦ rw e (
      let later : HasColumn name cs = elim k [
        | inl same ↦ absurd (let t = (str_eq_iff c.name name).1 same in cc)
        | inr found ↦ found
      ] in
      let size : length (front ++ v ∷ []) ≡ suc (length front) =
        omega (arith, length-append {0} front (v ∷ [])) in
      ap₂ (λ n l. column_value n name l cs) (sym size) (sym (append_assoc front (v ∷ []) vs))
      ∙ column_value-named name (front ++ v ∷ []) vs cs (omega (arith, h)) later)
]

module _ (F : Floats) where
  compare_values-test :
      (op : Bytes) (l r : Value)
      → is_comparison op ≡ true
      → compare_values F l op r ≡ returned (test_holds F op l r)
  unfolding compare_values test_holds is_comparison
  compare_values-test op l r h = ground arith

  evaluate_binary-meaning :
      (op : Bytes) (l r : Value)
      → (str_eq op (codes "AND") || str_eq op (codes "OR") || is_comparison op) ≡ true
      → evaluate_binary F op (returned (truth F l)) (returned (truth F r)) (returned l) (returned r)
        ≡ returned (binary_holds F op l r)
  unfolding evaluate_binary
  evaluate_binary-meaning op l r h = ground (arith, compare_values-test op l r)

  -- A WHERE clause that names only columns of the table, whose numbers can be read and whose
  -- operators are supported is evaluated with no exception on every row with a value for each
  -- column: as a condition its result is the truth of its meaning, and as a value its meaning, in
  -- which AND and OR are the Boolean operations, whatever the order of evaluation, a column stands
  -- for the value beside the first column of the name, and a comparison with NULL does not hold.
  pub evaluate-meaning :
      (columns : List ColumnDef) (row : Row) (e : Expression)
      → length row ≡ length columns
      → Supported F columns e
      → (evaluate_expression F row columns e ≡ returned (truth F (meaning F columns row e)))
        × (evaluate_value F row columns e ≡ returned (meaning F columns row e))
  unfolding evaluate_expression evaluate_value meaning evaluate_identifier binary_value truth
  evaluate-meaning columns row (identifier name) h s =
      let found = column_value-named name [] row columns h s in (rw found refl, found)
  evaluate-meaning columns row (number_literal t) h (v, e) =
      let m : v ≡ meaning F columns row (number_literal t) = ap value_or_null (sym e) in
      (rw e refl, e ∙ ap returned m)
  evaluate-meaning columns row (string_literal t) h s = (refl, refl)
  evaluate-meaning columns row (binary left op right) h (o, sl, sr) =
      let l = evaluate-meaning columns row left h sl in
      let r = evaluate-meaning columns row right h sr in
      let b =
        evaluate_binary-meaning op (meaning F columns row left) (meaning F columns row right) o in
      (rw (l.0, l.1, r.0, r.1) b, rw (l.0, l.1, r.0, r.1) (rw (b, o) refl))
