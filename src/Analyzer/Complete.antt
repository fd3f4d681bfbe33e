-- ===== src/Analyzer/Complete.antt =====
-- While levels are left, a trace visits all that its nodes call.
use Prim.Native.Nat.{ℕ, ◌≤◌}
use mathlib.Core.Path.{◌≡◌, refl, subst}
use mathlib.Core.Logic.{◌⊎◌, inl, inr, ⊎_elim}
use mathlib.Core.Bool.{true}
use mathlib.Core.List.{List, [], ◌∷◌, Memᴰ}
use mathlib.Core.List.Memᴰ
use native.Mathlib.Omega.{arith}
use flash_code_graph.Common.Tests.{le→ltb_false, Bool-cases}
use flash_code_graph.Common.Lists.{All, All-map}
use flash_code_graph.Common.Traverse.{All-at}
use flash_code_graph.Common.Text.{Text, text_eq}
use flash_code_graph.Common.Maps.{Map, slice_at, lookup}
use flash_code_graph.Common.Sets.{in_set_iff, missing, missing_mono, missing_less, missing_none}
use flash_code_graph.Model.{confidence_low_threshold}
use flash_code_graph.Analyzer.{CallEdge, CallForest, Steps, children_of}
use flash_code_graph.Analyzer.Trace.{is_skipped}
use flash_code_graph.Analyzer.Visits.{Traces, cut, over, pass, enter, ids_below, Traces-visited}
use flash_code_graph.Analyzer.Reach.{IsConfident, CallPath, start, call, taken-IsConfident}

skipped-visited :
    (edge : CallEdge) (visited : List Text)
    → is_skipped edge visited ≡ true
    → IsConfident edge
    → Memᴰ edge.target_id visited
unfolding is_skipped
skipped-visited edge visited e sure =
    (in_set_iff edge.target_id visited).0
      (ground (arith, le→ltb_false edge.confidence confidence_low_threshold sure))

-- All confident calls of a function go to functions of the list.
abbrev pub Closed : CallForest → List Text → Text → Type 0
Closed forest set id =
    (edge : CallEdge)
    → Memᴰ edge (children_of forest id)
    → IsConfident edge
    → Memᴰ edge.target_id set

-- Every call goes to one of these functions.
abbrev pub Covers : CallForest → List Text → Type 0
Covers forest functions =
    All (λ entry. All (λ e. Memᴰ e.target_id functions) entry.1) forest.children

slice_at-All :
    (P : CallEdge → Type 0) (m : Map (List CallEdge)) (id : Text)
    → All (λ entry. All P entry.1) m
    → All P (slice_at id m)
unfolding slice_at lookup
slice_at-All P [] id h = tt
slice_at-All P ((k, edges) ∷ m) id h = elim (Bool-cases (text_eq k id)) [
  | inl same ↦ rw (slice_at, lookup, same) h.0
  | inr other ↦ rw (slice_at, lookup, other) (slice_at-All P m id h.1)
]

pub Covers-children_of :
    (forest : CallForest) (functions : List Text) (id : Text)
    → Covers forest functions
    → All (λ e. Memᴰ e.target_id functions) (children_of forest id)
unfolding children_of
Covers-children_of forest functions id known = slice_at-All _ forest.children id known

module _ {forest : CallForest} {layers : Map Text} (functions : List Text)
    (known : Covers forest functions) where
  pub Traces-grows :
      {left depth : ℕ} {visited after : List Text} {edges : List CallEdge} {steps : Steps}
      → Traces forest layers left depth visited edges steps after
      → (x : Text) → Memᴰ x visited
      → Memᴰ x after
  Traces-grows {steps} t x m = rw (Traces-visited t) (Memᴰ.append_left (ids_below steps) m)

  -- While a level is left for each function that is not visited, the depth cuts nothing off.
  pub Traces-Closed :
      {left depth : ℕ} {visited after : List Text} {edges : List CallEdge} {steps : Steps}
      → Traces forest layers left depth visited edges steps after
      → missing functions visited ≤ left
      → All (λ e. Memᴰ e.target_id functions) edges
      → All (λ e. IsConfident e → Memᴰ e.target_id after) edges
        × ((x : Text) → Memᴰ x after → Memᴰ x visited ⊎ Closed forest after x)
  Traces-Closed (cut {visited} {edges}) b h =
      (All-map _ _ edges (λ e m c. missing_none functions visited e.target_id b m) h, λ x m. inl m)
  Traces-Closed over b h = (tt, λ x m. inl m)
  Traces-Closed (pass {visited} {after} {edge} e t) b h =
      let (rest, old) = Traces-Closed t b h.1 in
      ((λ sure. Traces-grows t edge.target_id (skipped-visited edge visited e sure), rest), old)
  Traces-Closed (enter {left} {visited} {seen} {after} {edge} e t u) b h =
      let (fresh, sure) = taken-IsConfident edge visited e in
      let fewer = missing_less functions visited edge.target_id h.0 fresh in
      let (inner, inner_old) =
        Traces-Closed t (omega arith) (Covers-children_of forest functions edge.target_id known) in
      let still =
        missing_mono functions visited seen (λ y m. Traces-grows t y (Memᴰ.append_left _ m)) in
      let (later, later_old) = Traces-Closed u (omega arith) h.1 in
      (
        (
          λ c.
              Traces-grows u edge.target_id
                (Traces-grows t edge.target_id (Memᴰ.append_right visited (Memᴰ.head refl))),
          later,
        ),
        λ x m.
            let of_target =
              λ (at : x ≡ edge.target_id) (f : CallEdge) (c : Memᴰ f (children_of forest x))
                  (s : IsConfident f).
                Traces-grows u f.target_id (
                  All-at (λ e. IsConfident e → Memᴰ e.target_id seen)
                    (children_of forest edge.target_id) f inner
                    (subst (λ z. Memᴰ f (children_of forest z)) at c) s) in
            ⊎_elim
              (λ was_seen.
                ⊎_elim
                  (λ before.
                    ⊎_elim (λ v. inl v) (λ one. inr (of_target (Memᴰ.eq_of_singleton one)))
                      (Memᴰ.append_cases visited before))
                  (λ closed. inr (λ f c s. Traces-grows u f.target_id (closed f c s)))
                  (inner_old x was_seen))
              (λ closed. inr closed) (later_old x m),
      )

-- A set with the callees of its members has all that is reached from one of them.
pub CallPath-closed :
    (forest : CallForest) (set : List Text) (entry : Text)
    → Memᴰ entry set
    → ((x : Text) → Memᴰ x set → Closed forest set x)
    → {n : ℕ} {id : Text} → CallPath forest n entry id
    → Memᴰ id set
CallPath-closed forest set entry m closed start = m
CallPath-closed forest set entry m closed (call {b} {edge} p listed sure e) =
    rw e (closed b (CallPath-closed forest set entry m closed p) edge listed sure)
