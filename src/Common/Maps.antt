-- ===== src/Common/Maps.antt =====
-- Go maps with string keys, as association lists with one entry for each key.
use mathlib.Core.Path.{◌≡◌, refl}
use mathlib.Core.Bool.{Bool, true, false}
use mathlib.Core.Option.{Option, none, some}
use mathlib.Core.List.{List, [], ◌∷◌, ◌++◌}
use native.Mathlib.Omega.{arith}
use flash_code_graph.Common.Tests.{if◌then◌else◌}
use flash_code_graph.Common.Text.{Text, text_eq, text_eq_iff}

abbrev pub Map {ℓ} : Type ℓ → Type ℓ
Map V = List (Text × V)

module _ {ℓ} {V : Type ℓ} where
  unfoldable pub lookup : Text → Map V → Option V
  unfolding text_eq
  lookup k [] = none
  lookup k ((j, v) ∷ m) = if text_eq j k then some v else lookup k m

  unfoldable pub insert : Text → V → Map V → Map V
  unfolding text_eq
  insert k v [] = (k, v) ∷ []
  insert k v ((j, w) ∷ m) = if text_eq j k then (k, v) ∷ m else (j, w) ∷ insert k v m

  -- delete(m, k)
  unfoldable pub remove : Text → Map V → Map V
  unfolding text_eq
  remove k [] = []
  remove k ((j, w) ∷ m) = if text_eq j k then remove k m else (j, w) ∷ remove k m

  unfoldable pub has_key : Text → Map V → Bool
  has_key k m = elim (lookup k m) [ none ↦ false | some v ↦ true ]

  pub lookup-insert :
      (k j : Text) (v : V) (m : Map V)
      → lookup j (insert k v m) ≡ (if text_eq k j then some v else lookup j m)
  unfolding lookup insert
  lookup-insert k j v [] = refl
  lookup-insert k j v ((i, w) ∷ m) =
      ground (arith, text_eq_iff k j, text_eq_iff i k, text_eq_iff i j, lookup-insert k j v m)

  pub lookup-remove :
      (k j : Text) (m : Map V) → lookup j (remove k m) ≡ (if text_eq k j then none else lookup j m)
  unfolding lookup remove
  lookup-remove k j [] = ground arith
  lookup-remove k j ((i, w) ∷ m) =
      ground (arith, text_eq_iff k j, text_eq_iff i k, text_eq_iff i j, lookup-remove k j m)

-- A map to slices, read as Go reads a missing key: the empty slice.
module _ {ℓ} {A : Type ℓ} where
  unfoldable pub slice_at : Text → Map (List A) → List A
  slice_at k m = elim (lookup k m) [ none ↦ [] | some xs ↦ xs ]

  -- m[k] = append(m[k], x)
  unfoldable pub append_at : Text → A → Map (List A) → Map (List A)
  append_at k x m = insert k (slice_at k m ++ x ∷ []) m

  pub slice_at-append_at :
      (k j : Text) (x : A) (m : Map (List A))
      → slice_at j (append_at k x m)
        ≡ (if text_eq k j then slice_at j m ++ x ∷ [] else slice_at j m)
  unfolding slice_at append_at
  slice_at-append_at k j x m =
      ground (arith, lookup-insert k j (slice_at k m ++ x ∷ []) m, text_eq_iff k j)
