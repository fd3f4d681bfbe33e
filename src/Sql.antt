-- ===== src/Sql.antt =====
-- internal/core/parser/sqlutil/scope.go and sqlutil.go: the SQL strings that variables hold while a
-- function is read. A scope and its parents are a list, the innermost first. Each variable of a scope
-- is one that no other name shares.
pub mod Chain
pub mod Kinds
pub mod Queries
pub mod Emitted
mod Examples
use Prim.Native.Nat.{ℕ, ◌+◌}
use mathlib.Core.Bool.{Bool, true, false, ◌&&◌, ◌||◌, not}
use mathlib.Core.Option.{Option, none, some}
use mathlib.Core.List.{List, [], ◌∷◌, ◌++◌, map}
use flash_code_graph.Common.Tests.{ltb, if◌then◌else◌}
use flash_code_graph.Common.Lists.{length, drop, any, is_empty}
use flash_code_graph.Common.Text.{Text, text, has_prefix, contains, to_upper, trim_space}
use flash_code_graph.Common.Maps.{Map, lookup, insert, has_key}

pub record ConditionalFragment : Type 0 where
  pub condition : Text
  pub fragment : Text
  pub is_else : Bool

pub record SqlVariable : Type 0 where
  pub fragments : List Text
  pub line : ℕ
  pub conditions : List ConditionalFragment
  pub base_sql : Text

abbrev pub Scope : Type 0
Scope = Map SqlVariable

unfoldable pub new_scope : List Scope → List Scope
new_scope parents = [] ∷ parents

unfoldable pub scope_lookup : Text → List Scope → Option SqlVariable
scope_lookup name [] = none
scope_lookup name (scope ∷ parents) = elim (lookup name scope) [
  | none ↦ scope_lookup name parents
  | some variable ↦ some variable
]

-- The loop of `Set`: `none` if no scope has the name.
unfoldable pub set_nearest : Text → SqlVariable → List Scope → Option (List Scope)
set_nearest name variable [] = none
set_nearest name variable (scope ∷ parents) =
    let outer = set_nearest name variable parents in
    if has_key name scope
    then some (insert name variable scope ∷ parents)
    else elim outer [ none ↦ none | some changed ↦ some (scope ∷ changed) ]

unfoldable pub scope_set : Text → SqlVariable → List Scope → List Scope
scope_set name variable [] = []
scope_set name variable (scope ∷ parents) = elim (set_nearest name variable (scope ∷ parents)) [
  | some changed ↦ changed
  | none ↦ insert name variable scope ∷ parents
]

-- The inner loop of `Snapshot`.
unfoldable pub add_fragments : Scope → Map (List Text) → Map (List Text)
add_fragments [] result = result
add_fragments ((name, variable) ∷ scope) result =
    let kept = add_fragments scope result in
    if has_key name result
    then kept
    else add_fragments scope (insert name variable.fragments result)

unfoldable pub snapshot_from : List Scope → Map (List Text) → Map (List Text)
snapshot_from [] result = result
snapshot_from (scope ∷ parents) result = snapshot_from parents (add_fragments scope result)

unfoldable pub snapshot : List Scope → Map (List Text)
snapshot scopes = snapshot_from scopes []

-- strings.Join with the empty separator
unfoldable pub join_all : List Text → Text
join_all [] = []
join_all (fragment ∷ fragments) = fragment ++ join_all fragments

-- The body of the loop of `RecordConditionalDiff`.
unfoldable pub record_variable : Text → Bool → List Text → SqlVariable → SqlVariable
record_variable condition is_else before variable =
    if ltb (length before) (length variable.fragments)
    then record variable {
      conditions =
          variable.conditions
          ++ map (λ f. record { condition = condition; fragment = f; is_else = is_else })
              (drop (length before) variable.fragments);
      base_sql = if is_empty variable.base_sql then join_all before else variable.base_sql;
    }
    else variable

unfoldable pub restore_variable : List Text → SqlVariable → SqlVariable
restore_variable before variable = record variable { fragments = before }

-- The loops over all variables of all scopes that change those which the snapshot has.
unfoldable pub update_scope :
    (List Text → SqlVariable → SqlVariable) → Map (List Text) → Scope → Scope
update_scope change before [] = []
update_scope change before ((name, variable) ∷ scope) =
    (
      name,
      elim (lookup name before) [ none ↦ variable | some fragments ↦ change fragments variable ],
    )
    ∷ update_scope change before scope

unfoldable pub record_conditional_diff : List Scope → Map (List Text) → Text → Bool → List Scope
record_conditional_diff scopes before condition is_else =
    map (update_scope (record_variable condition is_else) before) scopes

unfoldable pub restore_snapshot : List Scope → Map (List Text) → List Scope
restore_snapshot scopes before = map (update_scope restore_variable before) scopes

unfoldable pub detect_query_type : Text → Text
detect_query_type sql =
    let upper = to_upper (trim_space sql) in
    if has_prefix upper (text "SELECT") || has_prefix upper (text "FROM")
    then text "SELECT"
    else if has_prefix upper (text "INSERT")
    then text "INSERT"
    else if has_prefix upper (text "UPDATE")
    then text "UPDATE"
    else if has_prefix upper (text "DELETE")
    then text "DELETE"
    else text "UNKNOWN"

unfoldable pub is_sql_statement : Text → Bool
is_sql_statement sql =
    let upper = to_upper (trim_space sql) in
    has_prefix upper (text "SELECT ")
    || has_prefix upper (text "INSERT ")
    || has_prefix upper (text "UPDATE ")
    || has_prefix upper (text "DELETE ")

unfoldable pub is_sql_stub : Text → Bool
is_sql_stub sql = any (contains (to_upper sql)) (
    text "SELECT"
    ∷ text "INSERT"
    ∷ text "UPDATE"
    ∷ text "DELETE"
    ∷ text "CREATE"
    ∷ text "ALTER"
    ∷ text "DROP"
    ∷ text "WITH"
    ∷ text "FROM"
    ∷ text "WHERE"
    ∷ text "JOIN"
    ∷ text "SET"
    ∷ text "INTO"
    ∷ text "VALUES"
    ∷ [])
