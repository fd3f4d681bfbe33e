-- ===== src/Graph.antt =====
-- Nodes and edges of the graph: internal/model/graph.go, and the part of the interface GraphStore
-- of internal/storage/storage.go that the analysis calls. The store is a parameter.
use Prim.Native.Nat.{ℕ}
use mathlib.Core.Bool.{Bool, false}
use mathlib.Core.Option.{Option, some}
use mathlib.Core.List.{List, []}
use flash_code_graph.Common.Text.{Text}
use flash_code_graph.Common.Maps.{Map, lookup}
use flash_code_graph.Model.{RelationKind}

-- The values that a property of type `any` holds: nil, a string, a bool, a float64 in hundredths,
-- an int.
pub data Value : Type 0 where
  null : Value
  str : Text → Value
  flag : Bool → Value
  real : ℕ → Value
  whole : ℕ → Value

pub record Node : Type 0 where
  pub id : Text
  pub kind : Text
  pub properties : Map Value

pub record Edge : Type 0 where
  pub source_id : Text
  pub target_id : Text
  pub kind : RelationKind
  pub properties : Map Value

-- A result with an error in the way of Go.
pub data Reply {ℓ} (A : Type ℓ) : Type ℓ where
  reply : A → Reply A
  failed : Text → Reply A

-- The queries without a limit. A store that fails returns no rows.
pub record GraphStore : Type 0 where
  pub query_all_edges : RelationKind → Reply (List Edge)
  pub query_all_by_kind : Text → Reply (List Node)

-- `rows, _ := query`
abbrev pub rows_of {ℓ} : {A : Type ℓ} → Reply (List A) → List A
rows_of (reply rows) = rows
rows_of (failed e) = []

-- `s, _ := v.(string)`
abbrev pub str_of : Option Value → Text
str_of (some (str s)) = s
str_of _ = []

-- `b, _ := v.(bool)`
abbrev pub flag_of : Option Value → Bool
flag_of (some (flag b)) = b
flag_of _ = false

unfoldable pub node_property : Node → Text → Text
node_property node key = str_of (lookup key node.properties)
