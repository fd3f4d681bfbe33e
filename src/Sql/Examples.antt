-- ===== src/Sql/Examples.antt =====
-- Scopes with one variable, on which the theorems about SQL strings are applied.
use mathlib.Core.Path.{◌≡◌, refl}
use mathlib.Core.Bool.{false}
use mathlib.Core.Logic.{◌⊎◌}
use mathlib.Core.Option.{none, some}
use mathlib.Core.List.{List, [], ◌∷◌}
use flash_code_graph.Common.Tests.{if◌then◌else◌}
use flash_code_graph.Common.Text.{
  Text, text, text_eq, has_prefix, to_upper, trim_space, trim_left, trim_right,
}
use flash_code_graph.Common.Maps.{lookup, insert, has_key}
use flash_code_graph.Sql.{
  SqlVariable, Scope, scope_lookup, scope_set, add_fragments, snapshot_from, snapshot,
  restore_variable, update_scope, restore_snapshot, detect_query_type, is_sql_statement,
}
use flash_code_graph.Sql.Chain.{Stores, scope_lookup-scope_set, restore_snapshot-snapshot}
use flash_code_graph.Common.Lists.{All}
use flash_code_graph.Sql.Queries.{extract_tables}
use flash_code_graph.Sql.Emitted.{IsWord, extract_tables-IsWord}
use flash_code_graph.Sql.Kinds.{detect_query_type-is_sql_statement}

abbrev query_of : List Text → SqlVariable
query_of fragments = record { fragments = fragments; line = 3; conditions = []; base_sql = [] }

abbrev short : SqlVariable
short = query_of (text "SELECT *" ∷ [])

abbrev long : SqlVariable
long = query_of (text "SELECT *" ∷ text " FROM users" ∷ [])

-- A scope without variables inside one that has `q`.
abbrev chain_of : SqlVariable → List Scope
chain_of variable = [] ∷ ((text "q", variable) ∷ []) ∷ []

scope_lookup-scope_set_example :
    (scope_lookup (text "q") (scope_set (text "q") long (chain_of short)) ≡ (
      if text_eq (text "q") (text "q")
      then some long
      else scope_lookup (text "q") (chain_of short)))
    × (Stores (text "q") long (chain_of short) (scope_set (text "q") long (chain_of short))
        ⊎ ((scope_lookup (text "q") (chain_of short) ≡ none)
            × (scope_set (text "q") long (chain_of short)
                ≡ insert (text "q") long [] ∷ ((text "q", short) ∷ []) ∷ [])))
scope_lookup-scope_set_example =
    scope_lookup-scope_set (text "q") (text "q") long [] (((text "q", short) ∷ []) ∷ [])

restore_snapshot-snapshot_example :
    scope_lookup (text "q") (restore_snapshot (chain_of long) (snapshot (chain_of short)))
    ≡ some short
unfolding scope_lookup lookup text_eq
restore_snapshot-snapshot_example =
    restore_snapshot-snapshot (text "q") (chain_of short) (chain_of long) short long refl refl

-- A variable of an outer scope that an inner one hides gets the fragments of the inner one.
hidden_variable :
    restore_snapshot
      (((text "q", short) ∷ []) ∷ ((text "q", long) ∷ []) ∷ [])
      (snapshot (((text "q", short) ∷ []) ∷ ((text "q", long) ∷ []) ∷ []))
    ≡ ((text "q", short) ∷ []) ∷ ((text "q", short) ∷ []) ∷ []
unfolding restore_snapshot snapshot snapshot_from add_fragments update_scope restore_variable lookup
    insert has_key text_eq
hidden_variable = refl

select_has_type : text_eq (detect_query_type (text " delete from users")) (text "UNKNOWN") ≡ false
unfolding is_sql_statement to_upper trim_space trim_left trim_right has_prefix
select_has_type = detect_query_type-is_sql_statement (text " delete from users") refl

tables_are_words : All IsWord (extract_tables (text "SELECT * FROM users, orders"))
tables_are_words = extract_tables-IsWord (text "SELECT * FROM users, orders")
