-- ===== src/Mro/Examples.antt =====
-- Small hierarchies, on which the theorems about `ComputeMRO` and `c3Merge` are applied.
use Prim.Native.Nat.{ℕ, ◌-◌}
use mathlib.Core.Path.{◌≡◌, refl}
use mathlib.Core.Logic.{◌⊎◌, inl, inr}
use mathlib.Core.Option.{some, none}
use mathlib.Core.List.{List, [], ◌∷◌, Memᴰ, Sublistᴰ, Nodup}
use native.Mathlib.Omega.{arith}
use flash_code_graph.Common.Lists.{keep_if, All, any}
use flash_code_graph.Common.Text.{Text, text, text_eq}
use flash_code_graph.Model.{RawHeritage}
use flash_code_graph.Mro.{
  compute_mro, c3_merge, concat, order_from, build_parent_map, add_parents, c3_loop, pick, in_tail,
  total_length, drop_head,
}
use flash_code_graph.Common.Maps.{slice_at, lookup, append_at, insert}
use flash_code_graph.Common.Traverse.{traverse}
use flash_code_graph.Mro.Linear.{c3_merge_order}
use flash_code_graph.Mro.Distinct.{c3_merge_linear}
use flash_code_graph.Mro.Level.{parents_of}
use flash_code_graph.Mro.Hierarchy.{
  Above, compute_mro_acyclic, compute_mro_endless, compute_mro_monotone,
}

abbrev extends : Text → Text → RawHeritage
extends child parent = record {
  child_name = child;
  child_qualified = [];
  parent_name = parent;
  parent_qualified = [];
  kind = text "extends";
  file_path = text "m.py";
  language = text "python";
}

-- class D(B, C), class B(A), class C(A)
abbrev diamond : List RawHeritage
diamond =
    extends (text "D") (text "B")
    ∷ extends (text "D") (text "C")
    ∷ extends (text "B") (text "A")
    ∷ extends (text "C") (text "A")
    ∷ []

-- class A(B), class B(A)
abbrev circle : List RawHeritage
circle = extends (text "A") (text "B") ∷ extends (text "B") (text "A") ∷ []

-- The first byte: A is 65.
abbrev height : Text → ℕ
height [] = 0
height (c ∷ name) = c

abbrev InCircle : Text → Type 0
InCircle c = (c ≡ text "A") ⊎ (c ≡ text "B")

around : (c : Text) → InCircle c → (p : Text) × Memᴰ p (parents_of circle c) × InCircle p
unfolding keep_if text_eq
around c (inl e) = (text "B", rw e (Memᴰ.head refl), inr refl)
around c (inr e) = (text "A", rw e (Memᴰ.head refl), inl refl)

diamond_mro :
    compute_mro 4 diamond (text "D") ≡ some (text "D" ∷ text "B" ∷ text "C" ∷ text "A" ∷ [])
unfolding compute_mro order_from slice_at lookup build_parent_map add_parents append_at insert
    traverse c3_merge c3_loop keep_if pick in_tail any total_length drop_head text_eq
diamond_mro = refl

compute_mro_acyclic_example :
    (mro : List Text) × (compute_mro 69 diamond (text "D") ≡ some mro)
    × ((a : Text)
        → (Memᴰ a mro → Above diamond (text "D") a) × (Above diamond (text "D") a → Memᴰ a mro))
compute_mro_acyclic_example =
    compute_mro_acyclic diamond height 69 (text "D")
      (omega arith, (omega arith, (omega arith, (omega arith, tt)))) (omega arith)

compute_mro_endless_example : compute_mro 1000 circle (text "A") ≡ none
compute_mro_endless_example = compute_mro_endless circle InCircle around 1000 (text "A") (inl refl)

compute_mro_monotone_example :
    (rest : List Text) × (text "D" ∷ text "B" ∷ text "C" ∷ text "A" ∷ [] ≡ text "D" ∷ rest)
    × Sublistᴰ (parents_of diamond (text "D")) rest
    × ((p : Text)
        → Memᴰ p (parents_of diamond (text "D"))
        → (m : List Text) × (compute_mro 3 diamond p ≡ some m) × Sublistᴰ m rest)
compute_mro_monotone_example =
    compute_mro_monotone diamond 3 (text "D") (text "D" ∷ text "B" ∷ text "C" ∷ text "A" ∷ [])
      diamond_mro

abbrev three_sequences : List (List Text)
three_sequences =
    (text "D" ∷ text "B" ∷ []) ∷ (text "C" ∷ text "B" ∷ []) ∷ (text "D" ∷ text "C" ∷ []) ∷ []

c3_merge_order_example :
    (out : List Text) × (c3_merge three_sequences ≡ some out)
    × All (λ seq. Sublistᴰ seq out) three_sequences
    × ((a : Text) → Memᴰ a out → Memᴰ a (concat three_sequences))
c3_merge_order_example = c3_merge_order three_sequences

abbrev depth : Text → ℕ
depth c = 100 - height c

c3_merge_linear_example :
    (out : List Text) × (c3_merge three_sequences ≡ some out)
    × Nodup out
    × All (λ seq. Sublistᴰ seq out) three_sequences
    × ((a : Text) → Memᴰ a out → Memᴰ a (concat three_sequences))
c3_merge_linear_example = c3_merge_linear depth three_sequences (
  ((omega arith, tt), (tt, tt)),
  (((omega arith, tt), (tt, tt)), (((omega arith, tt), (tt, tt)), tt)),
)
