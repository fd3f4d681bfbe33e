-- ===== src/Sql/Emitted.antt =====
-- The queries that a chain of scopes emits, and the names of tables in them.
use mathlib.Core.Path.{◌≡◌, refl}
use mathlib.Core.Logic.{inl, inr}
use mathlib.Core.Bool.{true, false}
use mathlib.Core.List.{List, [], ◌∷◌, ◌++◌}
use flash_code_graph.Common.Tests.{Bool-cases, Option-cases}
use flash_code_graph.Common.Lists.{All, is_empty}
use flash_code_graph.Common.Text.{Text, text, text_eq, has_prefix, index_of, to_upper}
use flash_code_graph.Sql.{is_sql_statement}
use flash_code_graph.Sql.Queries.{
  is_separator, skip_separators, take_word, first_field, table_after, updated_table, extract_tables,
  RawQuery,
}

-- A word: some bytes, none of which separates words.
abbrev pub IsWord : Text → Type 0
IsWord s = (is_empty s ≡ false) × All (λ c. is_separator c ≡ false) s

All-append : {A : Type 0} (P : A → Type 0) (xs ys : List A) → All P xs → All P ys → All P (xs ++ ys)
All-append P [] ys h k = k
All-append P (x ∷ xs) ys h k = (h.0, All-append P xs ys h.1 k)

take_word-All : (s : Text) → All (λ c. is_separator c ≡ false) (take_word s)
unfolding take_word
take_word-All [] = tt
take_word-All (c ∷ s) = elim (Bool-cases (is_separator c)) [
  | inl stop ↦ rw stop tt
  | inr go ↦ rw go (go, take_word-All s)
]

first_field-IsWord : (s : Text) → All IsWord (first_field s)
unfolding first_field
first_field-IsWord s = word (take_word (skip_separators s)) (take_word-All (skip_separators s))
  where
    word :
        (w : Text)
        → All (λ c. is_separator c ≡ false) w
        → All IsWord (elim w [ [] ↦ [] | c ∷ rest ↦ (c ∷ rest) ∷ [] ])
    word [] h = tt
    word (c ∷ rest) h = ((refl, h), tt)

table_after-IsWord : (keyword sql : Text) → All IsWord (table_after keyword sql)
unfolding table_after
table_after-IsWord keyword sql = elim (Option-cases (index_of (to_upper sql) keyword)) [
  | inl absent ↦ rw (absent, table_after) tt
  | inr (i, there) ↦ rw (there, table_after) (first_field-IsWord _)
]

updated_table-IsWord : (sql : Text) → All IsWord (updated_table sql)
unfolding updated_table
updated_table-IsWord sql = elim (Bool-cases (has_prefix (to_upper sql) (text "UPDATE "))) [
  | inl update ↦ rw (update, updated_table) (first_field-IsWord _)
  | inr other ↦ rw (other, updated_table) tt
]

-- Every table that `ExtractTablesFromSQL` names is a word: not empty, and without a space, a comma,
-- a parenthesis or a semicolon.
pub extract_tables-IsWord : (sql : Text) → All IsWord (extract_tables sql)
unfolding extract_tables
extract_tables-IsWord sql =
    All-append IsWord _ _
      (All-append IsWord _ _
        (All-append IsWord _ _ (updated_table-IsWord sql) (table_after-IsWord (text " FROM ") sql))
        (table_after-IsWord (text " INTO ") sql))
      (table_after-IsWord (text " JOIN ") sql)

-- A query with a statement in it, of a known type, whose tables are words.
abbrev pub IsQuery : RawQuery → Type 0
IsQuery q =
    (is_sql_statement q.sql_text ≡ true)
    × (text_eq q.query_type (text "UNKNOWN") ≡ false)
    × All IsWord q.tables
