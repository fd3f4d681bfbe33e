-- ===== src/Heritage/Inherits.antt =====
-- The edges of `ResolveHeritage`, for a whole list of heritage entries.
use mathlib.Core.Path.{◌≡◌, refl, sym, ◌∙◌, ap}
use mathlib.Core.Logic.{inl, inr, ◌↔◌, ⊎_elim}
use mathlib.Core.Bool.{Bool, false}
use mathlib.Core.Option.{Option, some}
use mathlib.Core.List.{List, [], ◌∷◌, Memᴰ}
use mathlib.Core.List.Memᴰ
use Prim.Native.Nat.{ℕ}
use native.Mathlib.Omega.{arith}
use flash_code_graph.Common.Tests.{Option-cases}
use flash_code_graph.Common.Lists.{length, keep_if, is_empty, List-cases}
use flash_code_graph.Model.{Symbol, RawHeritage, ResolvedRelation}
use flash_code_graph.Heritage.{Symbols, Helpers}
use flash_code_graph.Heritage.Resolve.{
  is_class_or_interface, find_child, parent_candidates, narrow_by_import, heritage_edge,
  resolve_entry, resolve_heritage, narrow_by_import-keeps, narrow_by_import-mem,
}

module _ (symbols : Symbols) (helpers : Helpers) (has_envs : Bool) where
  resolve_heritage-mem :
      (heritage : List RawHeritage) (edge : ResolvedRelation)
      → Memᴰ edge (resolve_heritage symbols helpers has_envs heritage) ↔ (
          (entry : RawHeritage) × Memᴰ entry heritage
          × (resolve_entry symbols helpers has_envs entry ≡ some edge))
  unfolding resolve_heritage
  resolve_heritage-mem [] edge =
      (λ m. absurd (Memᴰ.not-nil m), λ (entry, m, e). absurd (Memᴰ.not-nil m))
  resolve_heritage-mem (entry ∷ heritage) edge =
      let rest = resolve_heritage-mem heritage edge in
      elim (Option-cases (resolve_entry symbols helpers has_envs entry)) [
        | inl skipped ↦ (
          λ m.
              let (e, at, run) = rest.0 (rw (skipped, resolve_heritage) at m) in
              (e, Memᴰ.tail at, run),
          λ (e, at, run).
              rw (skipped, resolve_heritage)
                (⊎_elim
                  (λ same. absurd (
                    ground (arith, skipped, run, ap (resolve_entry symbols helpers has_envs) same)))
                  (λ t. rest.1 (e, t, run)) (Memᴰ.cases_cons at)),
        )
        | inr (first, found) ↦ (
          λ m.
              ⊎_elim
                (λ same.
                  (entry, Memᴰ.head refl, found ∙ ap {B = Option ResolvedRelation} some (sym same)))
                (λ t. let (e, at, run) = rest.0 t in (e, Memᴰ.tail at, run))
                (Memᴰ.cases_cons (rw (found, resolve_heritage) at m)),
          λ (e, at, run).
              rw (found, resolve_heritage)
                (⊎_elim
                  (λ same.
                    Memᴰ.head (
                      ground (arith, found, run, ap (resolve_entry symbols helpers has_envs) same)))
                  (λ t. Memᴰ.tail (rest.1 (e, t, run))) (Memᴰ.cases_cons at)),
        )
      ]

  entry_edge :
      (entry : RawHeritage) (child : Symbol)
      → find_child symbols entry ≡ some child
      → is_empty (keep_if is_class_or_interface (parent_candidates symbols entry)) ≡ false
      → (parent : Symbol) × (count : ℕ) × Memᴰ parent
          (keep_if is_class_or_interface (parent_candidates symbols entry))
        × (resolve_entry symbols helpers has_envs entry
            ≡ some (heritage_edge entry child parent count))
  unfolding resolve_entry
  entry_edge entry child found types =
      let candidates = keep_if is_class_or_interface (parent_candidates symbols entry) in
      let left = narrow_by_import-keeps helpers has_envs entry candidates types in
      elim (List-cases (narrow_by_import helpers has_envs entry candidates)) [
        | inl nothing ↦ absurd (ground (arith, nothing, left))
        | inr (parent, rest, some_left) ↦ (
          parent,
          length (parent ∷ rest),
          narrow_by_import-mem helpers has_envs entry candidates parent
              (rw some_left (Memᴰ.head refl)),
          rw (found, some_left, resolve_entry) refl,
        )
      ]

-- An entry whose child is found, and whose parent's name belongs to a class or interface, gives an
-- edge from that child to such a class or interface: the check of imports never drops an entry.
pub resolve_heritage_complete :
    (symbols : Symbols) (helpers : Helpers) (has_envs : Bool) (heritage : List RawHeritage)
    (entry : RawHeritage) (child : Symbol)
    → Memᴰ entry heritage
    → find_child symbols entry ≡ some child
    → is_empty (keep_if is_class_or_interface (parent_candidates symbols entry)) ≡ false
    → (parent : Symbol) × (count : ℕ) × Memᴰ parent
        (keep_if is_class_or_interface (parent_candidates symbols entry))
      × Memᴰ
          (heritage_edge entry child parent count)
          (resolve_heritage symbols helpers has_envs heritage)
resolve_heritage_complete symbols helpers has_envs heritage entry child m found types =
    let (parent, count, at, run) = entry_edge symbols helpers has_envs entry child found types in
    (
      parent,
      count,
      at,
      (resolve_heritage-mem symbols helpers has_envs heritage
            (heritage_edge entry child parent count)).1
          (entry, m, run),
    )
