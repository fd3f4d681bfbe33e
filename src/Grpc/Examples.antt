-- ===== src/Grpc/Examples.antt =====
-- A service with one method, on which the theorems about names are applied.
use mathlib.Core.Path.{◌≡◌, refl}
use flash_code_graph.Common.Text.{text}
use flash_code_graph.Grpc.{parse_grpc_invoke_path, strip_port, extract_proto_service_name}
use flash_code_graph.Grpc.Names.{
  parse_grpc_invoke_path_lem, strip_port_lem, extract_proto_service_name_lem,
}

invoke_path_parsed :
    (parse_grpc_invoke_path (text "/User/Get") ≡ (text "User", text "Get"))
    × (parse_grpc_invoke_path (text "User/Get") ≡ (text "User", text "Get"))
invoke_path_parsed =
    parse_grpc_invoke_path_lem b'U' (text "ser") (text "Get") (refl, (refl, (refl, (refl, tt))))

port_stripped : strip_port (text "user:50051") ≡ text "user"
port_stripped = strip_port_lem (text "user") (text "50051") (refl, (refl, (refl, (refl, tt))))

extract_proto_service_name_lem_example :
    (extract_proto_service_name (text "NewUserClient") ≡ text "User")
    × (extract_proto_service_name (text "RegisterUserServer") ≡ text "User")
extract_proto_service_name_lem_example = extract_proto_service_name_lem b'U' (text "ser")
