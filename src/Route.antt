-- ===== src/Route.antt =====
-- internal/core/resolver/route_matcher.go: does a remote call match a declared route? The paths are
-- normalised by internal/core/parser/urlutil/urlutil.go (Route/Urls.antt).
pub mod Urls
pub mod Segments
pub mod Patterns
pub mod Parts
pub mod Matching
mod Examples
use Prim.Native.Nat.{ℕ, zero, suc, ◌+◌, ◌-◌}
use mathlib.Core.Bool.{Bool, true, false, ◌&&◌, ◌||◌, not}
use mathlib.Core.Option.{Option, none, some}
use mathlib.Core.List.{List, [], ◌∷◌}
use flash_code_graph.Common.Tests.{ltb, ◌==◌, if◌then◌else◌}
use flash_code_graph.Common.Lists.{length, get_elem?, keep_if, drop, take, is_empty}
use flash_code_graph.Common.Text.{Text, text, text_eq, has_prefix, index_of, equal_fold, split}
use flash_code_graph.Route.Urls.{param, normalize_path_params}

-- A route node with the properties that the matcher reads.
pub record Route : Type 0 where
  pub id : Text
  pub path_pattern : Text
  pub method : Text
  pub framework : Text

unfoldable pub non_blank : Text → Bool
non_blank part = not (is_empty part)

unfoldable pub split_path : Text → List Text
split_path path = keep_if non_blank (split b'/' path)

unfoldable pub segment_matches : Text → Text → Bool
segment_matches fetch_seg route_seg =
    if text_eq fetch_seg param || text_eq route_seg param then true else text_eq fetch_seg route_seg

unfoldable pub is_catch_all : Text → Bool
is_catch_all segment =
    text_eq segment (text "**")
    || text_eq segment (text "*")
    || has_prefix segment (text "[...")
    || has_prefix segment (text "[[...")

-- The loops `for i := 0; i < n; i++` over both lists of segments, `none` for an index out of range.
unfoldable pub match_first : ℕ → List Text → List Text → Option Bool
match_first zero fetch_parts route_parts = some true
match_first (suc n) (f ∷ fetch_parts) (r ∷ route_parts) =
    let later = match_first n fetch_parts route_parts in
    if segment_matches f r then later else some false
match_first (suc n) [] route_parts = none
match_first (suc n) (f ∷ fetch_parts) [] = none

-- rawRouteParts[len(rawRouteParts)-1], if there is one
unfoldable pub last_part : List Text → Option Text
last_part parts = get_elem? parts (length parts - 1)

unfoldable pub match_parts : List Text → List Text → List Text → Option Bool
match_parts fetch_parts route_parts raw_route_parts =
    let whole =
      if length fetch_parts == length route_parts
      then match_first (length fetch_parts) fetch_parts route_parts
      else some false in
    elim (last_part raw_route_parts) [
      | none ↦ whole
      | some last ↦
          if is_catch_all last
          then (if ltb (length fetch_parts) (length route_parts - 1)
              then some false
              else match_first (length route_parts - 1) fetch_parts route_parts)
          else whole
    ]

-- method != "" && routeMethod != "" && !strings.EqualFold(method, routeMethod)
unfoldable pub method_differs : Text → Text → Bool
method_differs method route_method =
    not (is_empty method) && not (is_empty route_method) && not (equal_fold method route_method)

unfoldable pub match_rest_route : Text → Text → Text → Text → Option Bool
match_rest_route normalized_path method route_path route_method =
    if method_differs method route_method
    then some false
    else match_parts (split_path normalized_path) (split_path (normalize_path_params route_path))
        (split_path route_path)

-- The service and the method of a gRPC call: "Service/Method" in the path wins over the method.
unfoldable pub grpc_target : Text → Text → Text × Text
grpc_target normalized_path method = elim (index_of normalized_path (text "/")) [
  | none ↦ (normalized_path, method)
  | some idx ↦
      if ltb 0 idx
      then (take idx normalized_path, drop (suc idx) normalized_path)
      else (normalized_path, method)
]

unfoldable pub match_route : Text → Text → Text → Text → Text → Option Bool
match_route normalized_path method route_path route_method route_framework =
    let (service, service_method) = grpc_target normalized_path method in
    if text_eq route_framework (text "grpc")
    then some (equal_fold service route_path && equal_fold service_method route_method)
    else if text_eq route_framework (text "graphql")
    then some (equal_fold normalized_path route_path && equal_fold method route_method)
    else if text_eq route_framework (text "dubbo")
    then some (text_eq normalized_path route_path && text_eq method route_method)
    else match_rest_route normalized_path method route_path route_method

unfoldable pub find_matching_routes : Text → Text → List Route → Option (List Text)
find_matching_routes normalized_path method [] = some []
find_matching_routes normalized_path method (route ∷ routes) =
    elim (match_route normalized_path method route.path_pattern route.method route.framework) [
      | none ↦ none
      | some matches ↦ elim (find_matching_routes normalized_path method routes) [
        | none ↦ none
        | some matched ↦ some (if matches then route.id ∷ matched else matched)
      ]
    ]
