-- ===== src/Model.antt =====
-- The data that the components pass on: internal/model/symbol.go, parse.go, resolve.go, graph.go,
-- and the kinds and confidences of internal/constants. A record has the fields that some modelled
-- operation reads or writes. A confidence is counted in hundredths.
use Prim.Native.Nat.{ℕ}
use mathlib.Core.Bool.{Bool}
use mathlib.Core.List.{List}
use flash_code_graph.Common.Text.{Text, text}

pub record ParamInfo : Type 0 where
  pub name : Text
  pub type_name : Text
  pub has_default : Bool

pub record Symbol : Type 0 where
  pub id : Text
  pub name : Text
  pub qualified_name : Text
  pub kind : Text
  pub file_path : Text
  pub params : List ParamInfo
  pub class_type : Text
  pub type_params : List Text
  pub is_exported : Bool
  pub is_constructor : Bool
  pub is_default_export : Bool

pub record FieldInfo : Type 0 where
  pub name : Text
  pub type_name : Text
  pub visibility : Text
  pub is_static : Bool

pub record RawHeritage : Type 0 where
  pub child_name : Text
  pub child_qualified : Text
  pub parent_name : Text
  pub parent_qualified : Text
  pub kind : Text
  pub file_path : Text
  pub language : Text

-- RelationKind, the kinds that the modelled code emits or asks for.
pub data RelationKind : Type 0 where
  extends implements overrides dispatches calls handles has_annotation step : RelationKind

pub record ResolvedRelation : Type 0 where
  pub source_id : Text
  pub target_id : Text
  pub kind : RelationKind
  pub source_kind : Text
  pub target_kind : Text
  pub confidence : ℕ
  pub resolved_by : Text
  pub candidates : ℕ

abbrev pub kind_function : Text
kind_function = text "Function"

abbrev pub kind_class : Text
kind_class = text "Class"

abbrev pub kind_interface : Text
kind_interface = text "Interface"

abbrev pub kind_route : Text
kind_route = text "Route"

abbrev pub kind_annotation : Text
kind_annotation = text "Annotation"

abbrev pub kind_process : Text
kind_process = text "Process"

abbrev pub confidence_low_threshold : ℕ
confidence_low_threshold = 50

abbrev pub confidence_arg_count : ℕ
confidence_arg_count = 85

abbrev pub confidence_name_unique : ℕ
confidence_name_unique = 70
