-- ===== src/Analyzer.antt =====
-- The types of internal/service/analyzer.go. Forest loads the calls, Roots classifies the entry
-- points, Layers maps functions to layers, Trace follows the calls of an entry point, and Processes
-- turns a trace into the nodes and edges that are stored. The messages on progress are left out.
pub mod Forest
pub mod Roots
pub mod Layers
pub mod Trace
pub mod Processes
pub mod Calls
pub mod Visits
pub mod Reach
pub mod Order
pub mod Complete
pub mod Traced
pub mod Stored
pub mod Written
pub mod Verdicts
pub mod Dead
pub mod Entries
mod Examples
use Prim.Native.Nat.{ℕ}
use mathlib.Core.Bool.{Bool}
use mathlib.Core.List.{List}
use flash_code_graph.Common.Text.{Text}
use flash_code_graph.Common.Maps.{Map, slice_at}
use flash_code_graph.Graph.{Node}

pub record CallEdge : Type 0 where
  pub target_id : Text
  pub confidence : ℕ

pub record CallForest : Type 0 where
  pub in_degree : Map ℕ
  pub out_degree : Map ℕ
  pub children : Map (List CallEdge)
  pub nodes : Map Node

pub record EntryPoint : Type 0 where
  pub node_id : Text
  pub name : Text
  pub qualified_name : Text
  pub file_path : Text
  pub entry_type : Text
  pub score : ℕ
  pub route_method : Text
  pub route_path : Text

-- A ProcessStep but for its children.
pub record StepInfo : Type 0 where
  pub order : ℕ
  pub node_id : Text
  pub name : Text
  pub file_path : Text
  pub layer : Text
  pub confidence : ℕ
  pub depth : ℕ
  pub is_getter : Bool
  pub is_setter : Bool

mutual
  pub data ProcessStep : Type 0 where
    process_step : StepInfo → Steps → ProcessStep

  pub data Steps : Type 0 where
    no_steps : Steps
    add_step : ProcessStep → Steps → Steps

-- forest.Children[id]
unfoldable pub children_of : CallForest → Text → List CallEdge
children_of forest id = slice_at id forest.children
