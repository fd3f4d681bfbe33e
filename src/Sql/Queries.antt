-- ===== src/Sql/Queries.antt =====
-- internal/core/parser/sqlutil: the queries that the scopes hold at the end (EmitQueriesFromScope of
-- scope.go) and the tables that they name (ExtractTablesFromSQL of sqlutil.go). The variables of a
-- scope come in the order of its entries, which Go leaves open.
use Prim.Native.Nat.{ℕ, ◌+◌}
use mathlib.Core.Bool.{Bool, ◌||◌}
use mathlib.Core.Option.{none, some}
use mathlib.Core.List.{List, [], ◌∷◌, ◌++◌, map}
use flash_code_graph.Common.Tests.{◌==◌, if◌then◌else◌}
use flash_code_graph.Common.Lists.{length, drop, is_empty}
use flash_code_graph.Common.Text.{Text, text, has_prefix, index_of, to_upper, trim_space}
use flash_code_graph.Sql.{
  SqlVariable, ConditionalFragment, Scope, join_all, detect_query_type, is_sql_statement,
}

unfoldable pub is_separator : ℕ → Bool
is_separator c = c == b' ' || c == b',' || c == b'(' || c == b')' || c == b';'

unfoldable pub skip_separators : Text → Text
skip_separators [] = []
skip_separators (c ∷ s) = let rest = skip_separators s in if is_separator c then rest else c ∷ s

unfoldable pub take_word : Text → Text
take_word [] = []
take_word (c ∷ s) = let rest = take_word s in if is_separator c then [] else c ∷ rest

-- The first of strings.FieldsFunc, if there is one.
unfoldable pub first_field : Text → List Text
first_field s = elim (take_word (skip_separators s)) [ [] ↦ [] | c ∷ word ↦ (c ∷ word) ∷ [] ]

-- The body of the loop over the keywords.
unfoldable pub table_after : Text → Text → List Text
table_after keyword sql = elim (index_of (to_upper sql) keyword) [
  | none ↦ []
  | some i ↦ first_field (trim_space (drop (i + length keyword) sql))
]

unfoldable pub updated_table : Text → List Text
updated_table sql =
    if has_prefix (to_upper sql) (text "UPDATE ")
    then first_field (trim_space (drop (length (text "UPDATE ")) sql))
    else []

unfoldable pub extract_tables : Text → List Text
extract_tables sql =
    updated_table sql
    ++ table_after (text " FROM ") sql
    ++ table_after (text " INTO ") sql
    ++ table_after (text " JOIN ") sql

pub record RawQuery : Type 0 where
  pub sql_text : Text
  pub query_type : Text
  pub tables : List Text
  pub caller_name : Text
  pub file_path : Text
  pub line : ℕ
  pub base_sql : Text
  pub conditions : List ConditionalFragment

unfoldable pub full_sql : SqlVariable → Text
full_sql variable =
    join_all variable.fragments ++ join_all (map (λ c. c.fragment) variable.conditions)

unfoldable pub query_of_variable : Text → Text → SqlVariable → RawQuery
query_of_variable caller_name file_path variable = record {
  sql_text = full_sql variable;
  query_type = detect_query_type (full_sql variable);
  tables = extract_tables (full_sql variable);
  caller_name = caller_name;
  file_path = file_path;
  line = variable.line;
  base_sql = if is_empty variable.conditions then [] else variable.base_sql;
  conditions = variable.conditions;
}

-- The inner loop of `EmitQueriesFromScope`.
unfoldable pub emit_scope : Text → Text → Scope → List RawQuery
emit_scope caller_name file_path [] = []
emit_scope caller_name file_path ((name, variable) ∷ scope) =
    let rest = emit_scope caller_name file_path scope in
    if is_sql_statement (full_sql variable)
    then query_of_variable caller_name file_path variable ∷ rest
    else rest

-- What the function appends to the result.
unfoldable pub emit_queries : Text → Text → List Scope → List RawQuery
emit_queries caller_name file_path [] = []
emit_queries caller_name file_path (scope ∷ parents) =
    emit_scope caller_name file_path scope ++ emit_queries caller_name file_path parents
