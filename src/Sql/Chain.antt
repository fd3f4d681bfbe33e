-- ===== src/Sql/Chain.antt =====
-- The chain of scopes as one map from names to variables.
use mathlib.Core.Path.{◌≡◌, refl, ◌∙◌, subst}
use mathlib.Core.Logic.{◌⊎◌, inl, inr}
use mathlib.Core.Option.{Option, none, some}
use mathlib.Core.List.{List, [], ◌∷◌}
use native.Mathlib.Omega.{arith}
use flash_code_graph.Common.Tests.{if◌then◌else◌, Option-cases}
use flash_code_graph.Common.Text.{Text, text_eq, text_eq_iff}
use flash_code_graph.Common.Maps.{Map, lookup, insert, has_key, lookup-insert}
use flash_code_graph.Sql.{
  SqlVariable, Scope, scope_lookup, set_nearest, scope_set, add_fragments, snapshot_from, snapshot,
  restore_variable, update_scope, restore_snapshot,
}

set_nearest-lookup :
    (k j : Text) (v : SqlVariable) (scopes changed : List Scope)
    → set_nearest k v scopes ≡ some changed
    → scope_lookup j changed ≡ (if text_eq k j then some v else scope_lookup j scopes)
unfolding set_nearest scope_lookup has_key
set_nearest-lookup k j v [] changed h = absurd (ground arith)
set_nearest-lookup k j v (scope ∷ parents) changed h = elim (Option-cases (lookup k scope)) [
  | inr (w, here) ↦
      let e : changed ≡ insert k v scope ∷ parents = ground (arith, here, h) in
      rw e (ground (arith, lookup-insert k j v scope))
  | inl absent ↦ elim (Option-cases (set_nearest k v parents)) [
    | inl nowhere ↦ absurd (ground (arith, absent, nowhere, h))
    | inr (outer, found) ↦
        let e : changed ≡ scope ∷ outer = ground (arith, absent, found, h) in
        let rest = set_nearest-lookup k j v parents outer found in
        rw e (ground (arith, absent, rest, text_eq_iff k j))
  ]
]

set_nearest-none :
    (k : Text) (v : SqlVariable) (scopes : List Scope)
    → set_nearest k v scopes ≡ none
    → scope_lookup k scopes ≡ none
unfolding set_nearest scope_lookup has_key
set_nearest-none k v [] h = refl
set_nearest-none k v (scope ∷ parents) h = elim (Option-cases (lookup k scope)) [
  | inr (w, here) ↦ absurd (ground (arith, here, h))
  | inl absent ↦ elim (Option-cases (set_nearest k v parents)) [
    | inl nowhere ↦ ground (arith, absent, set_nearest-none k v parents nowhere)
    | inr (outer, found) ↦ absurd (ground (arith, absent, found, h))
  ]
]

scope_lookup-insert :
    (k j : Text) (v : SqlVariable) (scope : Scope) (parents : List Scope)
    → scope_lookup j (insert k v scope ∷ parents)
      ≡ (if text_eq k j then some v else scope_lookup j (scope ∷ parents))
unfolding scope_lookup
scope_lookup-insert k j v scope parents = ground (arith, lookup-insert k j v scope)

-- The innermost scope that holds a name gets the variable, and every other scope stays as it is.
pub data Stores (k : Text) (v : SqlVariable) : List Scope → List Scope → Type 0 where
  held :
      {scope : Scope} {parents : List Scope} {w : SqlVariable}
      → lookup k scope ≡ some w
      → Stores k v (scope ∷ parents) (insert k v scope ∷ parents)
  further_out :
      {scope : Scope} {parents changed : List Scope}
      → lookup k scope ≡ none
      → Stores k v parents changed
      → Stores k v (scope ∷ parents) (scope ∷ changed)

set_nearest-Stores :
    (k : Text) (v : SqlVariable) (scopes changed : List Scope)
    → set_nearest k v scopes ≡ some changed
    → Stores k v scopes changed
unfolding set_nearest has_key
set_nearest-Stores k v [] changed h = absurd (ground arith)
set_nearest-Stores k v (scope ∷ parents) changed h = elim (Option-cases (lookup k scope)) [
  | inr (w, here) ↦
      let e : insert k v scope ∷ parents ≡ changed = ground (arith, here, h) in
      subst (Stores k v (scope ∷ parents)) e (held here)
  | inl absent ↦ elim (Option-cases (set_nearest k v parents)) [
    | inl nowhere ↦ absurd (ground (arith, absent, nowhere, h))
    | inr (outer, found) ↦
        let e : scope ∷ outer ≡ changed = ground (arith, absent, found, h) in
        subst (Stores k v (scope ∷ parents)) e
          (further_out absent (set_nearest-Stores k v parents outer found))
  ]
]

-- `Lookup` after `Set` finds the new variable under its name, wherever in the chain it was stored,
-- and what it found before under every other name. `Set` stores it in the innermost scope that holds
-- the name, or in the innermost scope of all if none does, and changes no other scope.
pub scope_lookup-scope_set :
    (k j : Text) (v : SqlVariable) (scope : Scope) (parents : List Scope)
    → (scope_lookup j (scope_set k v (scope ∷ parents))
        ≡ (if text_eq k j then some v else scope_lookup j (scope ∷ parents)))
      × (Stores k v (scope ∷ parents) (scope_set k v (scope ∷ parents))
          ⊎ ((scope_lookup k (scope ∷ parents) ≡ none)
              × (scope_set k v (scope ∷ parents) ≡ insert k v scope ∷ parents)))
unfolding scope_set
scope_lookup-scope_set k j v scope parents =
    elim (Option-cases (set_nearest k v (scope ∷ parents))) [
      | inr (changed, found) ↦
          rw (found, scope_set)
            (
              set_nearest-lookup k j v (scope ∷ parents) changed found,
              inl (set_nearest-Stores k v (scope ∷ parents) changed found),
            )
      | inl nowhere ↦
          rw (nowhere, scope_set)
            (
              scope_lookup-insert k j v scope parents,
              inr (set_nearest-none k v (scope ∷ parents) nowhere, refl),
            )
    ]

-- The fragments under a name: those of a map, or else those of a variable.
abbrev or_fragments : Option (List Text) → Option SqlVariable → Option (List Text)
or_fragments (some fs) v = some fs
or_fragments none none = none
or_fragments none (some v) = some v.fragments

add_fragments-lookup :
    (j : Text) (scope : Scope) (result : Map (List Text))
    → lookup j (add_fragments scope result) ≡ or_fragments (lookup j result) (lookup j scope)
unfolding add_fragments lookup has_key
add_fragments-lookup j [] result = elim (Option-cases (lookup j result)) [
  | inl absent ↦ rw absent refl
  | inr (fs, there) ↦ rw there refl
]
add_fragments-lookup j ((name, v) ∷ scope) result = elim (Option-cases (lookup name result)) [
  | inr (fs, there) ↦ ground (arith, there, add_fragments-lookup j scope result, text_eq_iff name j)
  | inl absent ↦
      let rest = add_fragments-lookup j scope (insert name v.fragments result) in
      ground (arith, absent, rest, lookup-insert name j v.fragments result, text_eq_iff name j)
]

snapshot_from-lookup :
    (j : Text) (scopes : List Scope) (result : Map (List Text))
    → lookup j (snapshot_from scopes result)
      ≡ or_fragments (lookup j result) (scope_lookup j scopes)
unfolding snapshot_from scope_lookup
snapshot_from-lookup j [] result = elim (Option-cases (lookup j result)) [
  | inl absent ↦ rw absent refl
  | inr (fs, there) ↦ rw there refl
]
snapshot_from-lookup j (scope ∷ parents) result =
    let rest = snapshot_from-lookup j parents (add_fragments scope result) in
    ground (arith, rest, add_fragments-lookup j scope result)

-- What the loops over all variables do to one.
abbrev changed_by :
    (List Text → SqlVariable → SqlVariable)
    → Option (List Text)
    → Option SqlVariable
    → Option SqlVariable
changed_by change before none = none
changed_by change none (some v) = some v
changed_by change (some fs) (some v) = some (change fs v)

update_scope-lookup :
    (change : List Text → SqlVariable → SqlVariable) (before : Map (List Text)) (j : Text)
    (scope : Scope)
    → lookup j (update_scope change before scope)
      ≡ changed_by change (lookup j before) (lookup j scope)
unfolding update_scope lookup
update_scope-lookup change before j [] = refl
update_scope-lookup change before j ((name, v) ∷ scope) =
    ground (arith, update_scope-lookup change before j scope, text_eq_iff name j)

restore_snapshot-lookup :
    (j : Text) (scopes : List Scope) (before : Map (List Text))
    → scope_lookup j (restore_snapshot scopes before)
      ≡ changed_by restore_variable (lookup j before) (scope_lookup j scopes)
unfolding restore_snapshot scope_lookup
restore_snapshot-lookup j [] before = refl
restore_snapshot-lookup j (scope ∷ parents) before = ground (
  arith,
  update_scope-lookup restore_variable before j scope,
  restore_snapshot-lookup j parents before,
)

-- After `RestoreSnapshot` with a snapshot taken before, a variable that both chains of scopes show
-- has the fragments that it showed at the snapshot, whichever scopes hold it, and keeps its other
-- fields.
pub restore_snapshot-snapshot :
    (j : Text) (earlier later : List Scope) (old new : SqlVariable)
    → scope_lookup j earlier ≡ some old
    → scope_lookup j later ≡ some new
    → scope_lookup j (restore_snapshot later (snapshot earlier))
      ≡ some (record new { fragments = old.fragments })
unfolding snapshot restore_variable lookup
restore_snapshot-snapshot j earlier later old new before after =
    let saved : lookup j (snapshot earlier) ≡ some old.fragments =
      snapshot_from-lookup j earlier [] ∙ rw before refl in
    restore_snapshot-lookup j later (snapshot earlier) ∙ rw (saved, after) refl
