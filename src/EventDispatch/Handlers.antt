-- ===== src/EventDispatch/Handlers.antt =====
-- When reading the handler of a listener panics.
use Prim.Native.Nat.{◌-◌, ◌<◌}
use mathlib.Core.Path.{◌≡◌, refl, sym, ap, subst, ◌∙◌}
use mathlib.Core.Logic.{◌↔◌, inl, inr}
use mathlib.Core.Bool.{true, ◌&&◌}
use mathlib.Core.Option.{none}
use mathlib.Core.List.{List, [], ◌∷◌, ◌++◌}
use native.Mathlib.Omega.{arith}
use flash_code_graph.Common.Tests.{Bool-cases, &&-eq-true, ==_iff, leb}
use flash_code_graph.Common.Lists.{length, length-append}
use flash_code_graph.Common.Text.{Text, text, text_eq, has_prefix, has_suffix, has_suffix_iff}
use flash_code_graph.Model.{Symbol}
use flash_code_graph.EventDispatch.{slice, resolve_emitter_handler}

-- Only the dot that both patterns share makes the slice go backwards.
short_front :
    (front : Text)
    → has_prefix (front ++ text ".bind(this)") (text "this.") ≡ true
    → length front < 5
    → front ++ text ".bind(this)" ≡ text "this.bind(this)"
unfolding has_prefix
short_front [] h lt = absurd (ground arith)
short_front (a ∷ []) h lt = absurd (ground arith)
short_front (a ∷ b ∷ []) h lt = absurd (ground arith)
short_front (a ∷ b ∷ c ∷ []) h lt = absurd (ground arith)
short_front (a ∷ b ∷ c ∷ d ∷ []) h lt =
    ground (arith, ==_iff a b't', ==_iff b b'h', ==_iff c b'i', ==_iff d b's')
short_front (a ∷ b ∷ c ∷ d ∷ e ∷ rest) h lt = absurd (omega arith)

slice-none : (expr : Text) → slice 5 (length expr - 11) expr ≡ none → length expr - 11 < 5
unfolding slice
slice-none expr h =
    elim (Bool-cases (leb 5 (length expr - 11) && leb (length expr - 11) (length expr))) [
      | inl fits ↦ absurd (ground arith)
      | inr out ↦ ground arith
    ]

slice_backwards :
    (find_by_name : Text → List Symbol) (caller_name file_path : Text)
    → resolve_emitter_handler find_by_name (text "this.bind(this)") caller_name file_path ≡ none
unfolding resolve_emitter_handler slice text_eq
slice_backwards find_by_name caller_name file_path = refl

-- Reading the handler of a listener panics for the text `this.bind(this)` and for no other.
pub resolve_emitter_handler_panics :
    (find_by_name : Text → List Symbol) (expr caller_name file_path : Text)
    → (resolve_emitter_handler find_by_name expr caller_name file_path ≡ none)
      ↔ (expr ≡ text "this.bind(this)")
unfolding resolve_emitter_handler
resolve_emitter_handler_panics find_by_name expr caller_name file_path = (
  λ h. elim (Bool-cases (has_prefix expr (text "this.") && has_suffix expr (text ".bind(this)"))) [
    | inr other ↦ absurd (ground arith)
    | inl both ↦
        let (begins, ends) = &&-eq-true (has_prefix expr (text "this.")) _ both in
        let (front, e) = (has_suffix_iff expr (text ".bind(this)")).0 ends in
        let backwards : slice 5 (length expr - 11) expr ≡ none = ground arith in
        let short : length front < 5 = omega (
          arith,
          slice-none expr backwards,
          length-append front (text ".bind(this)"),
          ap length e,
        ) in
        e ∙ short_front front (subst (λ z. has_prefix z (text "this.") ≡ true) e begins) short
  ],
  λ e.
      subst (λ z. resolve_emitter_handler find_by_name z caller_name file_path ≡ none) (sym e)
        (slice_backwards find_by_name caller_name file_path),
)
