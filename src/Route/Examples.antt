-- ===== src/Route/Examples.antt =====
-- Routes of a small service, on which the theorems about the matcher are applied.
use mathlib.Core.Path.{◌≡◌}
use mathlib.Core.Logic.{◌↔◌}
use mathlib.Core.Bool.{Bool, true, false}
use mathlib.Core.Option.{some}
use mathlib.Core.List.{List, [], ◌∷◌, map}
use flash_code_graph.Common.Lists.{keep_if}
use flash_code_graph.Common.Text.{text, split}
use flash_code_graph.Route.{
  Route, match_rest_route, method_differs, split_path, find_matching_routes,
}
use flash_code_graph.Route.Urls.{normalize_path_params}
use flash_code_graph.Route.Segments.{normalize_path_params_idem}
use flash_code_graph.Route.Patterns.{Normalises, normalize_path_params_lem}
use flash_code_graph.Route.Parts.{PathMatch}
use flash_code_graph.Route.Matching.{
  match_rest_route_lem, match_rest_route_self, accepts, find_matching_routes_lem,
}

abbrev get_user : Route
get_user = record {
  id = text "r1";
  path_pattern = text "/users/:id";
  method = text "GET";
  framework = text "express";
}

abbrev user_service : Route
user_service = record {
  id = text "r2";
  path_pattern = text "UserService";
  method = text "GetUser";
  framework = text "grpc";
}

abbrev routes : List Route
routes = get_user ∷ user_service ∷ []

normalize_path_params_lem_example :
    Normalises
      (split b'/' (text "/users/:id/orders/7"))
      (split b'/' (normalize_path_params (text "/users/:id/orders/7")))
normalize_path_params_lem_example = normalize_path_params_lem (text "/users/:id/orders/7")

normalised_twice :
    normalize_path_params (normalize_path_params (text "/users/:id/orders/7"))
    ≡ normalize_path_params (text "/users/:id/orders/7")
normalised_twice = normalize_path_params_idem (text "/users/:id/orders/7")

match_rest_route_lem_example :
    (b : Bool) × (match_rest_route
        (text "/users/{param}")
        (text "get")
        (text "/users/:id")
        (text "GET")
      ≡ some b)
    × ((b ≡ true) ↔ (
        (method_differs (text "get") (text "GET") ≡ false)
        × PathMatch (split_path (text "/users/{param}")) (split_path (text "/users/:id"))))
match_rest_route_lem_example =
    match_rest_route_lem (text "/users/{param}") (text "get") (text "/users/:id") (text "GET")

match_rest_route_self_example :
    match_rest_route
      (normalize_path_params (text "/a/[id]/**"))
      (text "PUT")
      (text "/a/[id]/**")
      (text "PUT")
    ≡ some true
match_rest_route_self_example = match_rest_route_self (text "/a/[id]/**") (text "PUT")

routes_found :
    find_matching_routes (text "/users/{param}") (text "GET") routes
    ≡ some (map (λ route. route.id) (keep_if (accepts (text "/users/{param}") (text "GET")) routes))
routes_found = find_matching_routes_lem (text "/users/{param}") (text "GET") routes
