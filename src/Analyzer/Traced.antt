-- ===== src/Analyzer/Traced.antt =====
-- What the steps of a process are.
use Prim.Native.Nat.{ℕ, ◌≤◌}
use mathlib.Core.Path.{◌≡◌, refl, sym, subst}
use mathlib.Core.Logic.{◌⊎◌, ⊎_elim, ◌↔◌}
use mathlib.Core.Bool.{not}
use mathlib.Core.List.{List, [], ◌∷◌, Memᴰ, Nodup}
use mathlib.Core.List.Memᴰ
use native.Mathlib.Omega.{arith}
use flash_code_graph.Common.Lists.{length, All, All-map, All-mem}
use flash_code_graph.Common.Keep.{length-keep_if-le}
use flash_code_graph.Common.Traverse.{All-at}
use flash_code_graph.Common.Text.{Text}
use flash_code_graph.Common.Maps.{Map}
use flash_code_graph.Common.Sets.{in_set, missing, Distinct-Nodup}
use flash_code_graph.Analyzer.{CallForest, StepInfo, children_of}
use flash_code_graph.Analyzer.Trace.{trace_edges, trace_process, root_step}
use flash_code_graph.Analyzer.Processes.{flatten_steps}
use flash_code_graph.Analyzer.Visits.{
  Traces, trace_edges-Traces, ids_of, Traces-visited, Traces-Distinct,
}
use flash_code_graph.Analyzer.Order.{
  Holds, Numbered, flatten_steps-Numbered, flatten_steps-All, node_ids, node_ids-flatten_steps,
}
use flash_code_graph.Analyzer.Reach.{IsConfident, CallPath, start, Traces-CallPath}
use flash_code_graph.Analyzer.Complete.{
  Covers-children_of, Covers, Closed, Traces-grows, Traces-Closed, CallPath-closed,
}

-- The visited nodes at the end of a trace are the nodes of its steps.
module _ (forest : CallForest) (layers : Map Text) (entry name : Text) (max_depth : ℕ) where
  abbrev pub steps_of : List StepInfo
  steps_of = flatten_steps (trace_process forest entry name max_depth layers) []

  trace_process-visited :
      (trace_edges forest layers max_depth 0 (entry ∷ []) (children_of forest entry)).1
      ≡ node_ids steps_of
  unfolding trace_process ids_of
  trace_process-visited =
      rw
        (
          Traces-visited (
              trace_edges-Traces forest layers max_depth 0 (entry ∷ []) (children_of forest entry)),
          node_ids-flatten_steps (trace_process forest entry name max_depth layers) [],
        )
        refl

  trace_process-Nodup : Nodup (node_ids steps_of)
  trace_process-Nodup = rw (← trace_process-visited) (
      Distinct-Nodup _ (
        Traces-Distinct
          (trace_edges-Traces forest layers max_depth 0 (entry ∷ []) (children_of forest entry))
          ((λ m. Memᴰ.not-nil m), tt)))

  -- `TraceProcess` returns on every forest, with cycles too. No function stands twice among the steps
  -- of a process, and the steps are numbered 1, 2, 3 and so on. No step lies deeper than the limit, and
  -- a chain of confident calls, as long as the depth of the step, leads from the entry point to it.
  pub trace_process-CallPath :
      Nodup (node_ids steps_of)
      × Numbered steps_of
      × All (λ i. (i.depth ≤ max_depth) × CallPath forest i.depth entry i.node_id) steps_of
  unfolding trace_process root_step Holds
  trace_process-CallPath =
      let below =
        Traces-CallPath max_depth entry entry
          (trace_edges-Traces forest layers max_depth 0 (entry ∷ []) (children_of forest entry))
          (omega arith) start (All-mem _ (children_of forest entry) (λ x m. m)) in
      (
        trace_process-Nodup,
        flatten_steps-Numbered (trace_process forest entry name max_depth layers) []
            (λ i info e. absurd (ground arith)),
        flatten_steps-All (λ d id. (d ≤ max_depth) × CallPath forest d entry id)
            (trace_process forest entry name max_depth layers) [] ((omega arith, start), below) tt,
      )

All-node_ids :
    (P : Text → Type 0) (steps : List StepInfo) (id : Text)
    → All (λ i. P i.node_id) steps
    → Memᴰ id (node_ids steps)
    → P id
All-node_ids P [] id h m = absurd (Memᴰ.not-nil m)
All-node_ids P (i ∷ steps) id h m =
    ⊎_elim (λ e. subst P (sym e) h.0) (All-node_ids P steps id h.1) (Memᴰ.cases_cons m)

-- If the limit on the depth is not below the number of functions that are called, then the steps of
-- a process are exactly the functions that the entry point reaches through confident calls.
pub trace_process_complete :
    (forest : CallForest) (layers : Map Text) (entry name : Text) (max_depth : ℕ)
    (functions : List Text)
    → Covers forest functions
    → length functions ≤ max_depth
    → (id : Text)
    → Memᴰ id (node_ids (flatten_steps (trace_process forest entry name max_depth layers) []))
      ↔ ((n : ℕ) × CallPath forest n entry id)
trace_process_complete forest layers entry name max_depth functions known enough id =
    (listed, λ (n, path). reached n path)
  where
    t :
        Traces forest layers max_depth 0
          (entry ∷ [])
          (children_of forest entry)
          (trace_edges forest layers max_depth 0 (entry ∷ []) (children_of forest entry)).0
          (trace_edges forest layers max_depth 0 (entry ∷ []) (children_of forest entry)).1
    t = trace_edges-Traces forest layers max_depth 0 (entry ∷ []) (children_of forest entry)

    within : missing functions (entry ∷ []) ≤ max_depth
    within = let few = length-keep_if-le (λ f. not (in_set f (entry ∷ []))) functions in omega arith

    closed :
        All
          (λ e.
            IsConfident e
            → Memᴰ e.target_id
                (trace_edges forest layers max_depth 0 (entry ∷ []) (children_of forest entry)).1)
          (children_of forest entry)
        × ((x : Text)
            → Memᴰ x
                (trace_edges forest layers max_depth 0 (entry ∷ []) (children_of forest entry)).1
            → Memᴰ x (entry ∷ [])
              ⊎ Closed forest
                  (trace_edges forest layers max_depth 0 (entry ∷ []) (children_of forest entry)).1
                  x)
    closed =
        Traces-Closed functions known t within (Covers-children_of forest functions entry known)

    reached :
        (n : ℕ)
        → CallPath forest n entry id
        → Memᴰ id (node_ids (flatten_steps (trace_process forest entry name max_depth layers) []))
    reached n path = rw (← trace_process-visited forest layers entry name max_depth) (
        CallPath-closed forest _ entry (Traces-grows functions known t entry (Memᴰ.head refl))
          (λ x m.
            ⊎_elim
              (λ one.
                let at : x ≡ entry = Memᴰ.eq_of_singleton one in
                λ f c s.
                  All-at _ (children_of forest entry) f closed.0
                    (subst (λ z. Memᴰ f (children_of forest z)) at c) s)
              (λ c. c) (closed.1 x m))
          path)

    listed :
        Memᴰ id (node_ids (flatten_steps (trace_process forest entry name max_depth layers) []))
        → (n : ℕ) × CallPath forest n entry id
    listed m =
        All-node_ids (λ x. (n : ℕ) × CallPath forest n entry x)
          (flatten_steps (trace_process forest entry name max_depth layers) []) id
          (All-map _ _ (flatten_steps (trace_process forest entry name max_depth layers) [])
            (λ i h. (i.depth, h.1)) (trace_process-CallPath forest layers entry name max_depth).2)
          m
