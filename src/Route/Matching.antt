-- ===== src/Route/Matching.antt =====
-- When a remote call matches a route.
use flash_code_graph.Mro.Merge.{done}
use flash_code_graph.Route.Parts.{segment, done, same, PathMatch, decide_parts_lem}
use mathlib.Core.Path.{◌≡◌, refl, ap, ◌∙◌}
use mathlib.Core.Logic.{inl, inr, ◌↔◌}
use mathlib.Core.Bool.{Bool, true, false}
use mathlib.Core.Option.{Option, none, some}
use mathlib.Core.List.{List, [], ◌∷◌, map}
use native.Mathlib.Omega.{arith}
use flash_code_graph.Common.Tests.{Bool-cases, Option-cases}
use flash_code_graph.Common.Lists.{keep_if}
use flash_code_graph.Common.Text.{Text, to_lower, equal_fold, text_eq_refl}
use flash_code_graph.Route.{
  Route, split_path, method_differs, match_rest_route, match_route, find_matching_routes,
}
use flash_code_graph.Route.Urls.{normalize_segment, normalize_path_params}
use flash_code_graph.Route.Segments.{split_path-normalize}

-- The REST matcher never reads a segment out of range. It accepts a call exactly when the two HTTP
-- methods do not differ, where an empty one differs from none, and the segments of the path match
-- those of the declared pattern.
pub match_rest_route_lem :
    (path method route_path route_method : Text)
    → (b : Bool) × (match_rest_route path method route_path route_method ≡ some b)
      × ((b ≡ true) ↔ (
          (method_differs method route_method ≡ false)
          × PathMatch (split_path path) (split_path route_path)))
unfolding match_rest_route
match_rest_route_lem path method route_path route_method =
    let (b, run, both) = decide_parts_lem (split_path path) (split_path route_path) in
    elim (Bool-cases (method_differs method route_method)) [
      | inl differs ↦
          (false, rw differs refl, (λ e. absurd (ground arith), λ m. absurd (ground (arith, m.0))))
      | inr agree ↦ (
        b,
        rw (agree, split_path-normalize route_path) run,
        (λ e. (agree, both.0 e), λ m. both.1 m.1),
      )
    ]

every_value : (rs : List Text) → PathMatch (map normalize_segment rs) rs
every_value [] = done
every_value (r ∷ rs) = segment same (every_value rs)

method_differs_self : (method : Text) → method_differs method method ≡ false
unfolding method_differs equal_fold
method_differs_self method = ground (arith, text_eq_refl (to_lower method))

-- A call to a declared path, with its parameters normalised and with the declared method, is accepted
-- by the REST matcher.
pub match_rest_route_self :
    (route_path method : Text)
    → match_rest_route (normalize_path_params route_path) method route_path method ≡ some true
match_rest_route_self route_path method =
    let (b, run, both) =
      match_rest_route_lem (normalize_path_params route_path) method route_path method in
    let found : PathMatch (split_path (normalize_path_params route_path)) (split_path route_path) =
      rw (split_path-normalize route_path) (every_value (split_path route_path)) in
    run ∙ ap {B = Option Bool} some (both.1 (method_differs_self method, found))

match_route_total :
    (path method route_path route_method framework : Text)
    → (b : Bool) × (match_route path method route_path route_method framework ≡ some b)
unfolding match_route
match_route_total path method route_path route_method framework =
    let (b, run, both) = match_rest_route_lem path method route_path route_method in
    elim (Option-cases (match_route path method route_path route_method framework)) [
      | inl fails ↦ absurd (ground (arith, run))
      | inr found ↦ found
    ]

-- Does the matcher accept a call for a route?
abbrev pub accepts : Text → Text → Route → Bool
accepts path method route =
    elim (match_route path method route.path_pattern route.method route.framework) [
      | none ↦ false
      | some b ↦ b
    ]

-- `FindMatchingRoutes` never panics, and returns the IDs of the routes that `MatchRoute` accepts, in
-- the order of the routes.
pub find_matching_routes_lem :
    (path method : Text) (routes : List Route)
    → find_matching_routes path method routes
      ≡ some (map (λ route. route.id) (keep_if (accepts path method) routes))
unfolding find_matching_routes keep_if
find_matching_routes_lem path method [] = refl
find_matching_routes_lem path method (route ∷ routes) =
    let (b, run) = match_route_total path method route.path_pattern route.method route.framework in
    ground (arith, run, find_matching_routes_lem path method routes)
