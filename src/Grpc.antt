-- ===== src/Grpc.antt =====
-- internal/core/resolver/grpc_matcher.go: the names of gRPC services and methods in different
-- languages.
pub mod Names
mod Examples
use Prim.Native.Nat.{ℕ, suc, ◌+◌, ◌-◌}
use mathlib.Core.Bool.{Bool, true, false, ◌&&◌, not}
use mathlib.Core.Option.{Option, none, some}
use mathlib.Core.List.{List, [], ◌∷◌, ◌++◌}
use flash_code_graph.Common.Tests.{if◌then◌else◌}
use flash_code_graph.Common.Lists.{length, drop, take, is_empty}
use flash_code_graph.Common.Text.{
  Text, text, has_prefix, has_suffix, trim_prefix, index_of, cut_first, lower_byte,
}

-- strings.CutPrefix
unfoldable pub cut_prefix : Text → Text → Option Text
cut_prefix s p = if has_prefix s p then some (drop (length p) s) else none

-- strings.CutSuffix
unfoldable pub cut_suffix : Text → Text → Option Text
cut_suffix s p = if has_suffix s p then some (take (length s - length p) s) else none

-- `none` also for the empty service name, which the code does not accept.
unfoldable pub non_empty_service : Option Text → Option Text
non_empty_service none = none
non_empty_service (some []) = none
non_empty_service (some (c ∷ svc)) = some (c ∷ svc)

-- A name between a prefix and a suffix.
unfoldable pub service_between : Text → Text → Text → Option Text
service_between before after func_name = elim (cut_prefix func_name before) [
  | none ↦ none
  | some rest ↦ non_empty_service (cut_suffix rest after)
]

unfoldable pub or_else : Option Text → Option Text → Option Text
or_else none later = later
or_else (some svc) later = some svc

unfoldable pub extract_proto_service_name : Text → Text
extract_proto_service_name func_name =
    elim (or_else (service_between (text "New") (text "Client") func_name) (
      or_else (service_between (text "Register") (text "Server") func_name) (
        or_else (non_empty_service (cut_suffix func_name (text "Stub"))) (
          or_else (service_between (text "add_") (text "Servicer_to_server") func_name)
            (non_empty_service (cut_suffix func_name (text "Grpc"))))))) [
              | none ↦ []
              | some svc ↦ svc
            ]

unfoldable pub normalize_rpc_method : Text → Text
normalize_rpc_method [] = []
normalize_rpc_method (c ∷ rest) = lower_byte c ∷ rest

-- target[idx+4:]
unfoldable pub strip_grpc_scheme : Text → Text
strip_grpc_scheme target = elim (index_of target (text ":///")) [
  | none ↦ target
  | some idx ↦ drop (idx + 4) target
]

unfoldable pub strip_port : Text → Text
strip_port host_port = elim (cut_first b':' host_port) [
  | none ↦ host_port
  | some (host, port) ↦ host
]

unfoldable pub parse_grpc_invoke_path : Text → Text × Text
parse_grpc_invoke_path path = elim (cut_first b'/' (trim_prefix path (text "/"))) [
  | none ↦ ([], [])
  | some (service, method) ↦ (service, method)
]
