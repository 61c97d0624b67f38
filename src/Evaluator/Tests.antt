-- ===== src/Evaluator/Tests.antt =====
-- The theorem on WHERE clauses at a concrete input.
use tiny_sql.Prelude.{true, false, ◌≡◌, refl, inl, inr, List, [], ◌∷◌, arith, codes}
use tiny_sql.Ast.{Expression, identifier, number_literal, string_literal, binary}
use tiny_sql.Storage.Value.{DataType, null_value, int_value, ColumnDef}
use tiny_sql.Storage.Table.{Row}
use tiny_sql.Storage.Compare.Tests.{whole_floats}
use tiny_sql.Evaluator.{
  returned, is_comparison, truth, evaluate_number, evaluate_expression, evaluate_value,
}
use tiny_sql.Evaluator.Meaning.{Supported, meaning, evaluate-meaning}

abbrev columns : List ColumnDef
columns =
    record {
      name = codes "id";
      type = DataType.int;
      primary_key = true;
      not_null = true;
      auto_increment = false;
      default_value = null_value;
    }
    ∷ []

abbrev row : Row
row = int_value 3 ∷ []

-- `id = 3 AND 'x'`
abbrev clause : Expression
clause =
    binary (binary (identifier (codes "id")) (codes "=") (number_literal (codes "3"))) (codes "AND")
      (string_literal (codes "x"))

clause-Supported : Supported whole_floats columns clause
unfolding is_comparison evaluate_number tiny_sql.Prelude.str_eq tiny_sql.Evaluator.has_byte
    tiny_sql.Parser.leading_digits
clause-Supported = (refl, (refl, inl refl, (int_value 3, refl)), tt)

evaluate-meaning_example :
    (evaluate_expression whole_floats row columns clause
      ≡ returned (truth whole_floats (meaning whole_floats columns row clause)))
    × (evaluate_value whole_floats row columns clause
        ≡ returned (meaning whole_floats columns row clause))
evaluate-meaning_example = evaluate-meaning whole_floats columns row clause refl clause-Supported
