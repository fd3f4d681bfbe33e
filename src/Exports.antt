-- ===== src/Exports.antt =====
-- internal/service/index_export_propagation.go: which file an import means, and which symbol a
-- re-exported name stands for. Files resolves module paths, Waiters registers the names that wait for
-- another, and Propagate is the pass over the parse results, on the table of SymbolTable.
pub mod Files
pub mod Waiters
pub mod Propagate
pub mod Indexes
pub mod Targets
pub mod Steps
pub mod Cascade
pub mod Allowed
pub mod Known
mod Examples
use mathlib.Core.Bool.{Bool}
use mathlib.Core.List.{List}
use flash_code_graph.Common.Text.{Text}
use flash_code_graph.Common.Maps.{Map}
use flash_code_graph.Model.{Symbol}
use flash_code_graph.SymbolTable.{SymbolTable}

pub record RawImport : Type 0 where
  pub module_path : Text
  pub symbol_name : Text
  pub file_path : Text
  pub is_reexport : Bool
  pub local_name : Text
  pub is_wildcard : Bool

pub record ParseResult : Type 0 where
  pub file_path : Text
  pub symbols : List Symbol
  pub imports : List RawImport

pub record PathAlias : Type 0 where
  pub prefix : Text
  pub targets : List Text

pub record TsconfigPaths : Type 0 where
  pub base_url : Text
  pub aliases : List PathAlias

-- The functions of path/filepath that the resolution calls.
pub record FilePath : Type 0 where
  pub dir : Text → Text
  pub join : Text → Text → Text

-- What the re-exports change: the table, and the names that wait for another one.
pub record Exporting : Type 0 where
  pub table : SymbolTable
  pub waiting_for : Map (List Text)
