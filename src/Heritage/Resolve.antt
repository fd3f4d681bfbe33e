-- ===== src/Heritage/Resolve.antt =====
-- `ResolveHeritage` of internal/core/resolver/heritage.go: an edge for each heritage entry whose child
-- and parent are in the project. The import check takes the helper of the entry's language.
use Prim.Native.Nat.{ℕ, ◌≤◌, ◌<◌}
use mathlib.Core.Path.{◌≡◌, refl, subst}
use mathlib.Core.Logic.{◌⊎◌, inl, inr, ⊎_elim}
use mathlib.Core.Bool.{Bool, true, false, ◌&&◌, ◌||◌}
use mathlib.Core.Option.{Option, none, some}
use mathlib.Core.List.{List, [], ◌∷◌, ◌++◌, Memᴰ}
use native.Mathlib.Omega.{arith}
use flash_code_graph.Common.Tests.{ltb, ◌==◌, if◌then◌else◌, Bool-cases, Option-cases}
use flash_code_graph.Common.Lists.{length, keep_if, find_first, is_empty, List-cases}
use flash_code_graph.Common.Keep.{Memᴰ-keep_if, length-keep_if-le, find_first-some}
use flash_code_graph.Common.Text.{text, text_eq}
use flash_code_graph.Model.{
  Symbol, RawHeritage, ResolvedRelation, RelationKind, kind_class, kind_interface,
  confidence_arg_count, confidence_name_unique,
}
use flash_code_graph.Heritage.{Symbols, Helpers}

unfoldable pub is_class_or_interface : Symbol → Bool
is_class_or_interface s = text_eq s.kind kind_class || text_eq s.kind kind_interface

-- The child by its qualified name, if exactly one symbol has it.
unfoldable pub exact_child : Symbols → RawHeritage → Option Symbol
exact_child symbols entry =
    if is_empty entry.child_qualified
    then none
    else elim (symbols.by_qualified_name entry.child_qualified) [
      | [] ↦ none
      | c ∷ rest ↦ if is_empty rest then some c else none
    ]

unfoldable pub find_child : Symbols → RawHeritage → Option Symbol
find_child symbols entry = elim (exact_child symbols entry) [
  | some c ↦ some c
  | none ↦
      find_first (λ c. text_eq c.file_path entry.file_path && is_class_or_interface c)
        (symbols.by_name entry.child_name)
]

unfoldable pub parent_candidates : Symbols → RawHeritage → List Symbol
parent_candidates symbols entry =
    if is_empty entry.parent_qualified
    then symbols.by_name entry.parent_name
    else symbols.by_qualified_name entry.parent_qualified

-- The candidates after the check of imports; `has_envs` is envs != nil.
unfoldable pub narrow_by_import : Helpers → Bool → RawHeritage → List Symbol → List Symbol
narrow_by_import helpers has_envs entry class_parents =
    if ltb 1 (length class_parents) && has_envs
    then (if is_empty entry.language then class_parents else elim (helpers entry.language) [
      | none ↦ class_parents
      | some helper ↦
          let accessible =
            keep_if (λ c. helper.is_import_accessible c entry.file_path) class_parents in
          if is_empty accessible then class_parents else accessible
    ])
    else class_parents

unfoldable pub heritage_edge : RawHeritage → Symbol → Symbol → ℕ → ResolvedRelation
heritage_edge entry child parent candidates = record {
  source_id = child.id;
  target_id = parent.id;
  kind =
      if text_eq entry.kind (text "implements")
      then RelationKind.implements
      else RelationKind.extends;
  source_kind = child.kind;
  target_kind = parent.kind;
  confidence = if candidates == 1 then confidence_arg_count else confidence_name_unique;
  resolved_by = text "heritage_" ++ entry.kind;
  candidates = candidates;
}

-- The body of the loop: `none` for each `continue`.
unfoldable pub resolve_entry : Symbols → Helpers → Bool → RawHeritage → Option ResolvedRelation
resolve_entry symbols helpers has_envs entry = elim (find_child symbols entry) [
  | none ↦ none
  | some child ↦
      let class_parents = keep_if is_class_or_interface (parent_candidates symbols entry) in
      elim (narrow_by_import helpers has_envs entry class_parents) [
        | [] ↦ none
        | parent ∷ rest ↦ some (heritage_edge entry child parent (length (parent ∷ rest)))
      ]
]

unfoldable pub resolve_heritage :
    Symbols → Helpers → Bool → List RawHeritage → List ResolvedRelation
resolve_heritage symbols helpers has_envs [] = []
resolve_heritage symbols helpers has_envs (entry ∷ heritage) =
    let rest = resolve_heritage symbols helpers has_envs heritage in
    elim (resolve_entry symbols helpers has_envs entry) [ none ↦ rest | some edge ↦ edge ∷ rest ]

-- What an edge says about the entry that gave it.
pub record Explains (symbols : Symbols) (entry : RawHeritage) (edge : ResolvedRelation)
    : Type 0 where
  pub child : Symbol
  pub parent : Symbol
  pub child_known :
      Memᴰ child (symbols.by_qualified_name entry.child_qualified)
      ⊎ Memᴰ child (symbols.by_name entry.child_name)
  pub parent_listed : Memᴰ parent (parent_candidates symbols entry)
  pub parent_is_type : is_class_or_interface parent ≡ true
  pub count : ℕ
  pub some_candidates : 0 < count
  pub few_candidates :
      count ≤ length (keep_if is_class_or_interface (parent_candidates symbols entry))
  pub shape : edge ≡ heritage_edge entry child parent count

-- The check of imports keeps all candidates, or those that pass a test, if there are any.
narrow_by_import-cases :
    (helpers : Helpers) (has_envs : Bool) (entry : RawHeritage) (cs : List Symbol)
    → (narrow_by_import helpers has_envs entry cs ≡ cs)
      ⊎ ((q : Symbol → Bool) × (narrow_by_import helpers has_envs entry cs ≡ keep_if q cs)
          × (is_empty (keep_if q cs) ≡ false))
unfolding narrow_by_import
narrow_by_import-cases helpers has_envs entry cs =
    elim (Bool-cases (ltb 1 (length cs) && has_envs)) [
      | inr skip ↦ inl (rw skip refl)
      | inl go ↦ elim (Bool-cases (is_empty entry.language)) [
        | inl no_language ↦ inl (rw (go, no_language) refl)
        | inr language ↦ elim (Option-cases (helpers entry.language)) [
          | inl no_helper ↦ inl (rw (go, language, no_helper) refl)
          | inr (helper, found) ↦
              let q = λ (c : Symbol). helper.is_import_accessible c entry.file_path in
              elim (Bool-cases (is_empty (keep_if q cs))) [
                | inl none_left ↦ inl (rw (go, language, found, none_left) refl)
                | inr some_left ↦ inr (q, rw (go, language, found, some_left) refl, some_left)
              ]
        ]
      ]
    ]

pub narrow_by_import-mem :
    (helpers : Helpers) (has_envs : Bool) (entry : RawHeritage) (cs : List Symbol) (c : Symbol)
    → Memᴰ c (narrow_by_import helpers has_envs entry cs)
    → Memᴰ c cs
narrow_by_import-mem helpers has_envs entry cs c m =
    ⊎_elim (λ e. subst (Memᴰ c) e m)
      (λ (q, e, left). ((Memᴰ-keep_if q c cs).0 (subst (Memᴰ c) e m)).0)
      (narrow_by_import-cases helpers has_envs entry cs)

narrow_by_import-length :
    (helpers : Helpers) (has_envs : Bool) (entry : RawHeritage) (cs : List Symbol)
    → length (narrow_by_import helpers has_envs entry cs) ≤ length cs
narrow_by_import-length helpers has_envs entry cs =
    ⊎_elim (λ e. rw e (omega arith)) (λ (q, e, left). rw e (length-keep_if-le q cs))
      (narrow_by_import-cases helpers has_envs entry cs)

pub narrow_by_import-keeps :
    (helpers : Helpers) (has_envs : Bool) (entry : RawHeritage) (cs : List Symbol)
    → is_empty cs ≡ false
    → is_empty (narrow_by_import helpers has_envs entry cs) ≡ false
narrow_by_import-keeps helpers has_envs entry cs h =
    ⊎_elim (λ e. rw e h) (λ (q, e, left). rw e left)
      (narrow_by_import-cases helpers has_envs entry cs)

find_child_known :
    (symbols : Symbols) (entry : RawHeritage) (child : Symbol)
    → find_child symbols entry ≡ some child
    → Memᴰ child (symbols.by_qualified_name entry.child_qualified)
      ⊎ Memᴰ child (symbols.by_name entry.child_name)
unfolding find_child exact_child
find_child_known symbols entry child h = elim (Option-cases (exact_child symbols entry)) [
  | inl no_exact ↦ inr (
      (find_first-some (λ c. text_eq c.file_path entry.file_path && is_class_or_interface c)
        (symbols.by_name entry.child_name) child (ground (arith, no_exact, h))).0)
  | inr (c, exact) ↦ elim (List-cases (symbols.by_qualified_name entry.child_qualified)) [
    | inl nothing ↦ absurd (ground (arith, nothing, exact))
    | inr (d, rest, some_found) ↦
        inl (rw some_found (Memᴰ.head (ground (arith, some_found, exact, h))))
  ]
]

pub resolve_entry-Explains :
    (symbols : Symbols) (helpers : Helpers) (has_envs : Bool) (entry : RawHeritage)
    (edge : ResolvedRelation)
    → resolve_entry symbols helpers has_envs entry ≡ some edge
    → Explains symbols entry edge
unfolding resolve_entry
resolve_entry-Explains symbols helpers has_envs entry edge h =
    let types = keep_if is_class_or_interface (parent_candidates symbols entry) in
    elim (Option-cases (find_child symbols entry)) [
      | inl no_child ↦ absurd (ground (arith, no_child, h))
      | inr (child, found) ↦ elim (List-cases (narrow_by_import helpers has_envs entry types)) [
        | inl nothing ↦ absurd (ground (arith, found, nothing, h))
        | inr (parent, rest, some_left) ↦
            let at : Memᴰ parent types =
              narrow_by_import-mem helpers has_envs entry types parent
                (rw some_left (Memᴰ.head refl)) in
            let both =
              (Memᴰ-keep_if is_class_or_interface parent (parent_candidates symbols entry)).0 at in
            record {
              child = child;
              parent = parent;
              child_known = find_child_known symbols entry child found;
              parent_listed = both.0;
              parent_is_type = both.1;
              count = length (parent ∷ rest);
              some_candidates = omega arith;
              few_candidates =
                  subst (λ z. length z ≤ length types) some_left
                    (narrow_by_import-length helpers has_envs entry types);
              shape = ground (arith, found, some_left, h);
            }
      ]
    ]
