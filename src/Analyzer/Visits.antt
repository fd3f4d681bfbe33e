-- ===== src/Analyzer/Visits.antt =====
-- The runs of `traceDFS` as a relation, and the nodes that a run visits.
use Prim.Native.Nat.{ℕ, zero, suc}
use mathlib.Core.Path.{◌≡◌, refl, sym}
use mathlib.Core.Logic.{inl, inr}
use mathlib.Core.Bool.{true, false}
use mathlib.Core.List.{List, [], ◌∷◌, ◌++◌, append_assoc, append-nil}
use flash_code_graph.Common.Tests.{Bool-cases, Option-cases, ||-eq-false}
use flash_code_graph.Common.Text.{Text}
use flash_code_graph.Common.Maps.{Map, lookup}
use flash_code_graph.Common.Sets.{in_set, in_set-not, Distinct, Distinct-append}
use flash_code_graph.Analyzer.{
  CallEdge, CallForest, ProcessStep, process_step, Steps, no_steps, add_step, children_of,
}
use flash_code_graph.Analyzer.Trace.{trace_edges, child_step, is_skipped}

module _ (forest : CallForest) (layers : Map Text) where
  -- One constructor for each way through the loop.
  pub data Traces : ℕ → ℕ → List Text → List CallEdge → Steps → List Text → Type 0 where
    cut :
        {depth : ℕ} {visited : List Text} {edges : List CallEdge}
        → Traces zero depth visited edges no_steps visited
    over :
        {left depth : ℕ} {visited : List Text} → Traces (suc left) depth visited [] no_steps visited
    pass :
        {left depth : ℕ} {visited after : List Text} {edge : CallEdge} {edges : List CallEdge}
        {steps : Steps}
        → is_skipped edge visited ≡ true
        → Traces (suc left) depth visited edges steps after
        → Traces (suc left) depth visited (edge ∷ edges) steps after
    enter :
        {left depth : ℕ} {visited seen after : List Text} {edge : CallEdge} {edges : List CallEdge}
        {below steps : Steps}
        → is_skipped edge visited ≡ false
        → Traces left
            (suc depth)
            (visited ++ edge.target_id ∷ [])
            (children_of forest edge.target_id)
            below
            seen
        → Traces (suc left) depth seen edges steps after
        → Traces
            (suc left)
            depth
            visited
            (edge ∷ edges)
            (add_step (process_step (child_step forest layers depth edge) below) steps)
            after

  pub trace_edges-Traces :
      (left depth : ℕ) (visited : List Text) (edges : List CallEdge)
      → Traces left depth visited edges
          (trace_edges forest layers left depth visited edges).0
          (trace_edges forest layers left depth visited edges).1
  unfolding trace_edges
  trace_edges-Traces zero depth visited edges = cut
  trace_edges-Traces (suc left) depth visited [] = over
  trace_edges-Traces (suc left) depth visited (edge ∷ edges) =
      elim (Bool-cases (is_skipped edge visited)) [
        | inl skipped ↦
            rw (trace_edges, skipped)
              (pass skipped (trace_edges-Traces (suc left) depth visited edges))
        | inr taken ↦
            rw (trace_edges, taken)
              (enter taken
                (trace_edges-Traces left (suc depth) (visited ++ edge.target_id ∷ [])
                  (children_of forest edge.target_id))
                (trace_edges-Traces (suc left) depth
                  (trace_edges forest layers left (suc depth) (visited ++ edge.target_id ∷ [])
                    (children_of forest edge.target_id)).1
                  edges))
      ]

-- The node IDs of steps, each before those below it.
unfoldable mutual
  pub ids_of : ProcessStep → List Text
  ids_of (process_step info children) = info.node_id ∷ ids_below children

  pub ids_below : Steps → List Text
  ids_below no_steps = []
  ids_below (add_step step steps) = ids_of step ++ ids_below steps

pub child_step-node_id :
    (forest : CallForest) (layers : Map Text) (depth : ℕ) (edge : CallEdge)
    → (child_step forest layers depth edge).node_id ≡ edge.target_id
unfolding child_step
child_step-node_id forest layers depth edge =
    elim (Option-cases (lookup edge.target_id forest.nodes)) [
      | inl unknown ↦ rw (child_step, unknown) refl
      | inr (node, known) ↦ rw (child_step, known) refl
    ]

module _ {forest : CallForest} {layers : Map Text} where
  -- The visited nodes are those of before and then those of the steps.
  pub Traces-visited :
      {left depth : ℕ} {visited after : List Text} {edges : List CallEdge} {steps : Steps}
      → Traces forest layers left depth visited edges steps after
      → after ≡ visited ++ ids_below steps
  unfolding ids_of
  Traces-visited cut = sym (append-nil _)
  Traces-visited over = sym (append-nil _)
  Traces-visited (pass e t) = Traces-visited t
  Traces-visited (enter {depth} {visited} {edge} e t u) =
      let below = Traces-visited t in
      let later = Traces-visited u in
      rw
        (
          later,
          below,
          child_step-node_id forest layers depth edge,
          append_assoc visited (edge.target_id ∷ []) (ids_below _),
          append_assoc visited (edge.target_id ∷ ids_below _) (ids_below _),
        )
        refl

  pub Traces-Distinct :
      {left depth : ℕ} {visited after : List Text} {edges : List CallEdge} {steps : Steps}
      → Traces forest layers left depth visited edges steps after
      → Distinct visited
      → Distinct after
  unfolding is_skipped
  Traces-Distinct cut d = d
  Traces-Distinct over d = d
  Traces-Distinct (pass e t) d = Traces-Distinct t d
  Traces-Distinct (enter {visited} {edge} e t u) d =
      let fresh = ||-eq-false (in_set edge.target_id visited) _ e in
      Traces-Distinct u (
        Traces-Distinct t
          (Distinct-append visited edge.target_id d (in_set-not edge.target_id visited fresh.0)))
