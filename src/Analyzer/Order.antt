-- ===== src/Analyzer/Order.antt =====
-- `flattenSteps` lists the steps of a tree from the root on, and numbers them.
use Prim.Native.Nat.{ℕ, zero, suc, ◌+◌}
use mathlib.Core.Path.{◌≡◌, refl, sym}
use mathlib.Core.Logic.{◌⊎◌, inl, inr, ⊎_elim}
use mathlib.Core.Option.{some}
use mathlib.Core.List.{List, [], ◌∷◌, ◌++◌, map, append_assoc, append-nil}
use native.Mathlib.Omega.{arith}
use flash_code_graph.Common.Lists.{length, get_elem?, All}
use flash_code_graph.Common.Text.{Text}
use flash_code_graph.Analyzer.{StepInfo, ProcessStep, process_step, Steps, no_steps, add_step}
use flash_code_graph.Analyzer.Processes.{flatten_steps, flatten_all}
use flash_code_graph.Analyzer.Visits.{ids_of, ids_below}

-- A property of every step, which may read its depth and its node.
unfoldable mutual
  pub Holds : (ℕ → Text → Type 0) → ProcessStep → Type 0
  Holds P (process_step info children) = P info.depth info.node_id × HoldsBelow P children

  pub HoldsBelow : (ℕ → Text → Type 0) → Steps → Type 0
  HoldsBelow P no_steps = Unit
  HoldsBelow P (add_step step steps) = Holds P step × HoldsBelow P steps

-- The orders are 1, 2, 3, …
abbrev pub Numbered : List StepInfo → Type 0
Numbered steps = (i : ℕ) (info : StepInfo) → get_elem? steps i ≡ some info → info.order ≡ i + 1

get_elem?-concat :
    {A : Type 0} (xs : List A) (x : A) (i : ℕ) (v : A)
    → get_elem? (xs ++ x ∷ []) i ≡ some v
    → (get_elem? xs i ≡ some v) ⊎ ((i ≡ length xs) × (v ≡ x))
get_elem?-concat [] x zero v h = inr (refl, ground arith)
get_elem?-concat [] x (suc i) v h = absurd (ground arith)
get_elem?-concat (y ∷ xs) x zero v h = inl h
get_elem?-concat (y ∷ xs) x (suc i) v h =
    ⊎_elim (λ a. inl a) (λ (e, f). inr (omega arith, f)) (get_elem?-concat xs x i v h)

Numbered-concat :
    (steps : List StepInfo) (info : StepInfo)
    → Numbered steps
    → Numbered (steps ++ record info { order = length steps + 1 } ∷ [])
Numbered-concat steps info h i v e =
    ⊎_elim (h i v) (λ (at, same). rw (same, at) refl)
      (get_elem?-concat steps (record info { order = length steps + 1 }) i v e)

mutual
  unfolding flatten_steps

  pub flatten_steps-Numbered :
      (step : ProcessStep) (result : List StepInfo)
      → Numbered result
      → Numbered (flatten_steps step result)
  flatten_steps-Numbered (process_step info children) result h =
      flatten_all-Numbered children _ (Numbered-concat result info h)

  flatten_all-Numbered :
      (steps : Steps) (result : List StepInfo)
      → Numbered result
      → Numbered (flatten_all steps result)
  flatten_all-Numbered no_steps result h = h
  flatten_all-Numbered (add_step step steps) result h =
      flatten_all-Numbered steps _ (flatten_steps-Numbered step result h)

All-concat :
    (P : StepInfo → Type 0) (xs : List StepInfo) (x : StepInfo)
    → All P xs
    → P x
    → All P (xs ++ x ∷ [])
All-concat P [] x h p = (p, tt)
All-concat P (y ∷ xs) x h p = (h.0, All-concat P xs x h.1 p)

module _ (P : ℕ → Text → Type 0) where
  mutual
    unfolding flatten_steps Holds

    pub flatten_steps-All :
        (step : ProcessStep) (result : List StepInfo)
        → Holds P step
        → All (λ i. P i.depth i.node_id) result
        → All (λ i. P i.depth i.node_id) (flatten_steps step result)
    flatten_steps-All (process_step info children) result h r =
        flatten_all-All children _ h.1 (All-concat _ result _ r h.0)

    flatten_all-All :
        (steps : Steps) (result : List StepInfo)
        → HoldsBelow P steps
        → All (λ i. P i.depth i.node_id) result
        → All (λ i. P i.depth i.node_id) (flatten_all steps result)
    flatten_all-All no_steps result h r = r
    flatten_all-All (add_step step steps) result h r =
        flatten_all-All steps _ h.1 (flatten_steps-All step result h.0 r)

abbrev pub node_ids : List StepInfo → List Text
node_ids steps = map (λ i. i.node_id) steps

node_ids-append : (xs ys : List StepInfo) → node_ids (xs ++ ys) ≡ node_ids xs ++ node_ids ys
node_ids-append [] ys = refl
node_ids-append (x ∷ xs) ys = rw (node_ids-append xs ys) refl

mutual
  unfolding flatten_steps ids_of

  pub node_ids-flatten_steps :
      (step : ProcessStep) (result : List StepInfo)
      → node_ids (flatten_steps step result) ≡ node_ids result ++ ids_of step
  node_ids-flatten_steps (process_step info children) result =
      let numbered = record info { order = length result + 1 } in
      rw
        (
          node_ids-flatten_all children (result ++ numbered ∷ []),
          node_ids-append result (numbered ∷ []),
          append_assoc (node_ids result) (info.node_id ∷ []) (ids_below children),
        )
        refl

  node_ids-flatten_all :
      (steps : Steps) (result : List StepInfo)
      → node_ids (flatten_all steps result) ≡ node_ids result ++ ids_below steps
  node_ids-flatten_all no_steps result = sym (append-nil (node_ids result))
  node_ids-flatten_all (add_step step steps) result =
      rw
        (
          node_ids-flatten_all steps (flatten_steps step result),
          node_ids-flatten_steps step result,
          append_assoc (node_ids result) (ids_of step) (ids_below steps),
        )
        refl
