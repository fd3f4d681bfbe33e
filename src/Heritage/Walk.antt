-- ===== src/Heritage/Walk.antt =====
-- Breadth-first searches over the parents of classes: their fuel, and the classes they visit.
use Prim.Native.Nat.{ℕ, zero, suc, ◌+◌, ◌≤◌, ◌<◌}
use mathlib.Core.Path.{◌≡◌, refl}
use mathlib.Core.Logic.{inl, inr}
use mathlib.Core.Bool.{true, false, ◌||◌}
use mathlib.Core.Option.{Option, none, some}
use mathlib.Core.List.{List, [], ◌∷◌, ◌++◌, Memᴰ}
use native.Mathlib.Omega.{arith}
use flash_code_graph.Common.Tests.{Bool-cases, Option-cases}
use flash_code_graph.Common.Lists.{length, length-append, any}
use flash_code_graph.Common.Text.{Text, text_eq, text_eq_iff}
use flash_code_graph.Common.Maps.{Map, lookup, slice_at}
use flash_code_graph.Heritage.{is_visited, walk, search, edges_left}

-- A class above another one, or the class itself.
pub data Ancestor (parents : Map (List Text)) : Text → Text → Type 0 where
  self : {c : Text} → Ancestor parents c c
  up : {c p a : Text} → Memᴰ p (slice_at c parents) → Ancestor parents p a → Ancestor parents c a

pub is_visited-mem : (c : Text) (visited : List Text) → is_visited c visited ≡ true → Memᴰ c visited
unfolding is_visited any
is_visited-mem c [] h = absurd (ground arith)
is_visited-mem c (v ∷ visited) h = elim (Bool-cases (text_eq c v)) [
  | inl e ↦ Memᴰ.head ((text_eq_iff c v).0 e)
  | inr n ↦ Memᴰ.tail (is_visited-mem c visited (ground arith))
]

pub is_visited-cons :
    (c d : Text) (visited : List Text)
    → is_visited c (d ∷ visited) ≡ (text_eq c d || is_visited c visited)
unfolding is_visited any
is_visited-cons c d visited = ground arith

edges_left-cons_le :
    (c : Text) (visited : List Text) (m : Map (List Text))
    → edges_left (c ∷ visited) m ≤ edges_left visited m
unfolding edges_left
edges_left-cons_le c visited [] = omega arith
edges_left-cons_le c visited ((k, ps) ∷ m) =
    ground (arith, is_visited-cons k c visited, edges_left-cons_le c visited m)

-- A first visit pays for the parents that it puts on the queue.
edges_left-cons :
    (c : Text) (visited : List Text) (m : Map (List Text))
    → is_visited c visited ≡ false
    → edges_left (c ∷ visited) m + length (slice_at c m) ≤ edges_left visited m
unfolding edges_left slice_at lookup
edges_left-cons c visited [] h = omega arith
edges_left-cons c visited ((k, ps) ∷ m) h = elim (Bool-cases (text_eq k c)) [
  | inl e ↦
      let same = (text_eq_iff k c).0 e in
      let old : is_visited k visited ≡ false = rw same h in
      ground (arith, is_visited-cons k c visited, text_eq_iff c k, edges_left-cons_le c visited m)
  | inr n ↦ ground (
    arith,
    is_visited-cons k c visited,
    text_eq_iff c k,
    text_eq_iff k c,
    edges_left-cons c visited m h,
  )
]

module _ {ℓ} {A : Type ℓ} (parents : Map (List Text)) where
  -- With a unit of fuel for each class that may still be taken off the queue, the walk ends.
  pub walk_fuel :
      (emit : Text → List A) (fuel : ℕ) (visited queue : List Text)
      → length queue + edges_left visited parents < fuel
      → (out : List A) × (walk fuel parents emit visited queue ≡ some out)
  unfolding walk
  walk_fuel emit zero visited queue h = absurd (omega arith)
  walk_fuel emit (suc fuel) visited [] h = ([], refl)
  walk_fuel emit (suc fuel) visited (c ∷ queue) h = elim (Bool-cases (is_visited c visited)) [
    | inl seen ↦
        let (out, run) = walk_fuel emit fuel visited queue (omega arith) in
        (out, rw (seen, run) refl)
    | inr fresh ↦
        let fits : length (queue ++ slice_at c parents) + edges_left (c ∷ visited) parents < fuel =
          omega (
            arith,
            length-append queue (slice_at c parents),
            edges_left-cons c visited parents fresh,
          ) in
        let (out, run) = walk_fuel emit fuel (c ∷ visited) (queue ++ slice_at c parents) fits in
        (emit c ++ out, rw (fresh, run) refl)
  ]

  pub search_fuel :
      (found : Text → Option A) (fuel : ℕ) (visited queue : List Text)
      → length queue + edges_left visited parents < fuel
      → (out : Option A) × (search fuel parents found visited queue ≡ some out)
  unfolding search
  search_fuel found zero visited queue h = absurd (omega arith)
  search_fuel found (suc fuel) visited [] h = (none, refl)
  search_fuel found (suc fuel) visited (c ∷ queue) h = elim (Bool-cases (is_visited c visited)) [
    | inl seen ↦
        let (out, run) = search_fuel found fuel visited queue (omega arith) in
        (out, rw (seen, run) refl)
    | inr fresh ↦ elim (Option-cases (found c)) [
      | inr (a, hit) ↦ (some a, rw (fresh, hit) refl)
      | inl miss ↦
          let fits : length (queue ++ slice_at c parents) + edges_left (c ∷ visited) parents
              < fuel =
            omega (
              arith,
              length-append queue (slice_at c parents),
              edges_left-cons c visited parents fresh,
            ) in
          let (out, run) =
            search_fuel found fuel (c ∷ visited) (queue ++ slice_at c parents) fits in
          (out, rw (fresh, miss, run) refl)
    ]
  ]
