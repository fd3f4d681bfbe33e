-- ===== src/EventDispatch/Examples.antt =====
-- A class with one handler, for which the handlers of listeners are resolved.
use mathlib.Core.Path.{◌≡◌, refl}
use mathlib.Core.Logic.{◌↔◌}
use mathlib.Core.Bool.{false}
use mathlib.Core.Option.{none, some}
use mathlib.Core.List.{List, [], ◌∷◌}
use flash_code_graph.Common.Tests.{if◌then◌else◌}
use flash_code_graph.Common.Lists.{find_first}
use flash_code_graph.Common.Text.{Text, text, text_eq, cut_last}
use flash_code_graph.Model.{Symbol, kind_function}
use flash_code_graph.EventDispatch.{
  resolve_emitter_handler, find_method_in_caller_class, find_named_handler, slice,
}
use flash_code_graph.EventDispatch.Handlers.{resolve_emitter_handler_panics}

abbrev on_paid : Symbol
on_paid = record {
  id = text "s1";
  name = text "onPaid";
  qualified_name = text "shop.Cart.onPaid";
  kind = kind_function;
  file_path = text "cart.ts";
  params = [];
  class_type = [];
  type_params = [];
  is_exported = false;
  is_constructor = false;
  is_default_export = false;
}

by_name : Text → List Symbol
by_name name = if text_eq name (text "onPaid") then on_paid ∷ [] else []

bound_handler :
    resolve_emitter_handler by_name
      (text "this.onPaid.bind(this)")
      (text "shop.Cart.init")
      (text "cart.ts")
    ≡ some (text "s1")
unfolding resolve_emitter_handler by_name slice find_method_in_caller_class text_eq cut_last
    find_first
bound_handler = refl

other_class :
    resolve_emitter_handler by_name (text "this.onPaid") (text "shop.Till.init") (text "cart.ts")
    ≡ some []
unfolding resolve_emitter_handler by_name slice find_method_in_caller_class text_eq cut_last
    find_first
other_class = refl

named_handler :
    resolve_emitter_handler by_name (text "onPaid") (text "shop.Till.init") (text "till.ts")
    ≡ some (text "s1")
unfolding resolve_emitter_handler by_name slice find_named_handler text_eq find_first
named_handler = refl

resolve_emitter_handler_panics_example :
    (resolve_emitter_handler by_name
        (text "this.bind(this)")
        (text "shop.Cart.init")
        (text "cart.ts")
      ≡ none)
    ↔ (text "this.bind(this)" ≡ text "this.bind(this)")
resolve_emitter_handler_panics_example =
    resolve_emitter_handler_panics by_name (text "this.bind(this)") (text "shop.Cart.init")
      (text "cart.ts")
