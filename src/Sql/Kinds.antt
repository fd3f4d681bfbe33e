-- ===== src/Sql/Kinds.antt =====
-- The kinds of SQL statements.
use mathlib.Core.Path.{◌≡◌, refl}
use mathlib.Core.Bool.{true, false}
use mathlib.Core.List.{[], ◌∷◌, ◌++◌}
use native.Mathlib.Omega.{arith}
use flash_code_graph.Common.Text.{Text, text, text_eq, has_prefix, to_upper, trim_space}
use flash_code_graph.Sql.{detect_query_type, is_sql_statement}

has_prefix-append_true : (s p q : Text) → has_prefix s (p ++ q) ≡ true → has_prefix s p ≡ true
unfolding has_prefix
has_prefix-append_true [] [] q h = refl
has_prefix-append_true (c ∷ s) [] q h = refl
has_prefix-append_true [] (d ∷ p) q h = absurd (ground arith)
has_prefix-append_true (c ∷ s) (d ∷ p) q h = ground (arith, has_prefix-append_true s p q, h)

-- A text that `IsSQLStatement` accepts has a query type: `DetectQueryType` does not say UNKNOWN.
pub detect_query_type-is_sql_statement :
    (sql : Text)
    → is_sql_statement sql ≡ true
    → text_eq (detect_query_type sql) (text "UNKNOWN") ≡ false
unfolding detect_query_type is_sql_statement text_eq
detect_query_type-is_sql_statement sql h =
    let upper = to_upper (trim_space sql) in
    ground (
      arith,
      has_prefix-append_true upper (text "SELECT") (text " "),
      has_prefix-append_true upper (text "INSERT") (text " "),
      has_prefix-append_true upper (text "UPDATE") (text " "),
      has_prefix-append_true upper (text "DELETE") (text " "),
    )
