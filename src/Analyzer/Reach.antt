-- ===== src/Analyzer/Reach.antt =====
-- The functions that a trace reaches, along calls of enough confidence.
use Prim.Native.Nat.{ℕ, zero, suc, ◌+◌, ◌≤◌}
use mathlib.Core.Path.{◌≡◌, refl}
use mathlib.Core.Logic.{inl, inr}
use mathlib.Core.Bool.{false}
use mathlib.Core.List.{List, Memᴰ}
use native.Mathlib.Omega.{arith}
use flash_code_graph.Common.Tests.{Option-cases, ||-eq-false}
use flash_code_graph.Common.Lists.{All, All-mem}
use flash_code_graph.Common.Text.{Text}
use flash_code_graph.Common.Maps.{Map, lookup}
use flash_code_graph.Common.Sets.{in_set}
use flash_code_graph.Model.{confidence_low_threshold}
use flash_code_graph.Analyzer.{CallEdge, CallForest, Steps, children_of}
use flash_code_graph.Analyzer.Trace.{child_step, is_skipped}
use flash_code_graph.Analyzer.Visits.{Traces, cut, over, pass, enter, child_step-node_id}
use flash_code_graph.Analyzer.Order.{Holds, HoldsBelow}

abbrev pub IsConfident : CallEdge → Type 0
IsConfident edge = confidence_low_threshold ≤ edge.confidence

-- A chain of that many confident calls from one function to another.
pub data CallPath (forest : CallForest) : ℕ → Text → Text → Type 0 where
  start : {a : Text} → CallPath forest zero a a
  call :
      {n : ℕ} {a b c : Text} {edge : CallEdge}
      → CallPath forest n a b
      → Memᴰ edge (children_of forest b)
      → IsConfident edge
      → c ≡ edge.target_id
      → CallPath forest (suc n) a c

child_step-depth :
    (forest : CallForest) (layers : Map Text) (depth : ℕ) (edge : CallEdge)
    → (child_step forest layers depth edge).depth ≡ suc depth
unfolding child_step
child_step-depth forest layers depth edge =
    elim (Option-cases (lookup edge.target_id forest.nodes)) [
      | inl unknown ↦ rw (child_step, unknown) refl
      | inr (node, known) ↦ rw (child_step, known) refl
    ]

pub taken-IsConfident :
    (edge : CallEdge) (visited : List Text)
    → is_skipped edge visited ≡ false
    → (in_set edge.target_id visited ≡ false) × IsConfident edge
unfolding is_skipped
taken-IsConfident edge visited e =
    let (fresh, sure) = ||-eq-false (in_set edge.target_id visited) _ e in (fresh, ground arith)

module _ {forest : CallForest} {layers : Map Text} where
  -- Every step lies at the end of a chain of confident calls as long as its depth.
  pub Traces-CallPath :
      (max_depth : ℕ) (entry parent : Text) {left depth : ℕ} {visited after : List Text}
      {edges : List CallEdge} {steps : Steps}
      → Traces forest layers left depth visited edges steps after
      → depth + left ≡ max_depth
      → CallPath forest depth entry parent
      → All (λ e. Memᴰ e (children_of forest parent)) edges
      → HoldsBelow (λ d id. (d ≤ max_depth) × CallPath forest d entry id) steps
  unfolding Holds
  Traces-CallPath max_depth entry parent cut b p h = tt
  Traces-CallPath max_depth entry parent over b p h = tt
  Traces-CallPath max_depth entry parent (pass e t) b p h =
      Traces-CallPath max_depth entry parent t b p h.1
  Traces-CallPath max_depth entry parent (enter {left} {depth} {visited} {edge} e t u) b p h =
      let sure = (taken-IsConfident edge visited e).1 in
      let here = call p h.0 sure refl in
      let self =
        All-mem (λ e. Memᴰ e (children_of forest edge.target_id))
          (children_of forest edge.target_id) (λ x m. m) in
      (
        (
          rw
              (
                child_step-depth forest layers depth edge,
                child_step-node_id forest layers depth edge,
              )
              (omega arith, here),
          Traces-CallPath max_depth entry edge.target_id t (omega arith) here self,
        ),
        Traces-CallPath max_depth entry parent u b p h.1,
      )
