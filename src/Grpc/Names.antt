-- ===== src/Grpc/Names.antt =====
-- Names of services and methods that are put together and taken apart again.
use Prim.Native.Nat.{ℕ, ◌-◌}
use mathlib.Core.Path.{◌≡◌, refl, ap, ◌∙◌}
use mathlib.Core.Bool.{true, false}
use mathlib.Core.Option.{none, some}
use mathlib.Core.List.{[], ◌∷◌, ◌++◌}
use native.Mathlib.Omega.{arith}
use flash_code_graph.Common.Tests.{leb, ◌==◌}
use flash_code_graph.Common.Lists.{length, length-append, drop, take_front, drop_front}
use flash_code_graph.Common.Text.{
  Text, text, text_eq, text_eq_refl, has_prefix, has_suffix, cut_first, trim_prefix,
}
use flash_code_graph.Route.Segments.{NoByte}
use flash_code_graph.Grpc.{
  cut_prefix, cut_suffix, non_empty_service, service_between, or_else, extract_proto_service_name,
  strip_port, parse_grpc_invoke_path,
}

cut_first-append :
    (c : ℕ) (part rest : Text) → NoByte c part → cut_first c (part ++ c ∷ rest) ≡ some (part, rest)
unfolding cut_first
cut_first-append c [] rest h = ground arith
cut_first-append c (d ∷ part) rest h = rw (h.0, cut_first-append c part rest h.1) refl

has_prefix-append : (p s : Text) → has_prefix (p ++ s) p ≡ true
unfolding has_prefix
has_prefix-append [] [] = refl
has_prefix-append [] (c ∷ s) = refl
has_prefix-append (c ∷ p) s = ground (arith, has_prefix-append p s)

trim_slash : (path : Text) → trim_prefix (b'/' ∷ path) (text "/") ≡ path
unfolding trim_prefix has_prefix
trim_slash [] = refl
trim_slash (c ∷ path) = refl

trim_no_slash :
    (c : ℕ) (path : Text) → (c == b'/') ≡ false → trim_prefix (c ∷ path) (text "/") ≡ c ∷ path
unfolding trim_prefix has_prefix
trim_no_slash c path h = rw h refl

-- A path made of a service without a slash and a method is parsed into the two again, with or without
-- the slash in front.
pub parse_grpc_invoke_path_lem :
    (c : ℕ) (service method : Text)
    → NoByte b'/' (c ∷ service)
    → (parse_grpc_invoke_path (b'/' ∷ (c ∷ service) ++ b'/' ∷ method) ≡ (c ∷ service, method))
      × (parse_grpc_invoke_path ((c ∷ service) ++ b'/' ∷ method) ≡ (c ∷ service, method))
unfolding parse_grpc_invoke_path
parse_grpc_invoke_path_lem c service method h =
    let cut = cut_first-append b'/' (c ∷ service) method h in
    (
      rw (trim_slash ((c ∷ service) ++ b'/' ∷ method), cut, parse_grpc_invoke_path) refl,
      rw (trim_no_slash c (service ++ b'/' ∷ method) h.0, cut, parse_grpc_invoke_path) refl,
    )

-- A port is stripped off a host that has no colon.
pub strip_port_lem : (host port : Text) → NoByte b':' host → strip_port (host ++ b':' ∷ port) ≡ host
unfolding strip_port
strip_port_lem host port h = rw (cut_first-append b':' host port h, strip_port) refl

cut_suffix-append : (s p : Text) → cut_suffix (s ++ p) p ≡ some s
unfolding cut_suffix has_suffix
cut_suffix-append s p =
    let size : length (s ++ p) - length p ≡ length s = omega (arith, length-append s p) in
    let fits : leb (length p) (length (s ++ p)) ≡ true = ground (arith, length-append s p) in
    let ends : text_eq (drop (length (s ++ p) - length p) (s ++ p)) p ≡ true =
      rw (size, drop_front s p) (text_eq_refl p) in
    rw (fits, ends, size, take_front s p) refl

cut_prefix-append : (p s : Text) → cut_prefix (p ++ s) p ≡ some s
unfolding cut_prefix
cut_prefix-append p s = rw (has_prefix-append p s, drop_front p s) refl

service_between-append :
    (before after : Text) (c : ℕ) (svc : Text)
    → service_between before after (before ++ ((c ∷ svc) ++ after)) ≡ some (c ∷ svc)
unfolding service_between non_empty_service
service_between-append before after c svc =
    let front : cut_prefix (before ++ ((c ∷ svc) ++ after)) before ≡ some ((c ∷ svc) ++ after) =
      cut_prefix-append before ((c ∷ svc) ++ after) in
    ap (λ o. elim o [ none ↦ none | some rest ↦ non_empty_service (cut_suffix rest after) ]) front
    ∙ ap non_empty_service (cut_suffix-append (c ∷ svc) after)

no_client :
    (rest : Text) → service_between (text "New") (text "Client") (text "Register" ++ rest) ≡ none
unfolding service_between cut_prefix has_prefix
no_client rest = refl

-- The name of a service is recovered from the name of its Go client constructor and of its Go
-- registration function.
pub extract_proto_service_name_lem :
    (c : ℕ) (svc : Text)
    → (extract_proto_service_name (text "New" ++ (c ∷ svc) ++ text "Client") ≡ c ∷ svc)
      × (extract_proto_service_name (text "Register" ++ (c ∷ svc) ++ text "Server") ≡ c ∷ svc)
unfolding extract_proto_service_name or_else
extract_proto_service_name_lem c svc = (
  rw (service_between-append (text "New") (text "Client") c svc, extract_proto_service_name) refl,
  rw
      (
        no_client ((c ∷ svc) ++ text "Server"),
        service_between-append (text "Register") (text "Server") c svc,
        extract_proto_service_name,
      )
      refl,
)
