-- ===== src/EventDispatch.antt =====
-- internal/core/resolver/event_dispatch.go: resolveEmitterHandler and the two functions under it, which
-- find the method that a listener of an event emitter names. The lookup by name in the symbol table
-- is a parameter.
pub mod Handlers
mod Examples
use Prim.Native.Nat.{ℕ, ◌-◌}
use mathlib.Core.Bool.{◌&&◌, not}
use mathlib.Core.Option.{Option, none, some}
use mathlib.Core.List.{List, [], ◌++◌}
use flash_code_graph.Common.Tests.{if◌then◌else◌, leb}
use flash_code_graph.Common.Lists.{length, drop, take, find_first}
use flash_code_graph.Common.Text.{Text, text, text_eq, has_prefix, has_suffix, contains, cut_last}
use flash_code_graph.Model.{Symbol, kind_function}

-- s[low:high], `none` for the panic of Go
unfoldable pub slice : ℕ → ℕ → Text → Option Text
slice low high s =
    if leb low high && leb high (length s) then some (take (high - low) (drop low s)) else none

-- `return candidate.ID` for the first one found, and "" for none
abbrev pub id_or_empty : Option Symbol → Text
id_or_empty none = []
id_or_empty (some symbol) = symbol.id

unfoldable pub find_method_in_caller_class : (Text → List Symbol) → Text → Text → Text
unfolding text_eq
find_method_in_caller_class find_by_name method_name caller_name =
    elim (cut_last b'.' caller_name) [
      | none ↦ []
      | some (class_name, rest) ↦ id_or_empty (
          find_first
            (λ s.
              text_eq (s.kind) kind_function
              && text_eq (s.qualified_name) (class_name ++ text "." ++ method_name))
            (find_by_name method_name))
    ]

-- The case of a simple identifier: a function of the file of the call first, then any function.
unfoldable pub find_named_handler : (Text → List Symbol) → Text → Text → Text
unfolding text_eq
find_named_handler find_by_name name file_path =
    let candidates = find_by_name name in
    elim (find_first (λ s. text_eq (s.kind) kind_function && text_eq (s.file_path) file_path)
      candidates) [
        | some symbol ↦ symbol.id
        | none ↦ id_or_empty (find_first (λ s. text_eq (s.kind) kind_function) candidates)
      ]

-- With the caller's name and the file of the call. `none` is a panic.
unfoldable pub resolve_emitter_handler : (Text → List Symbol) → Text → Text → Text → Option Text
unfolding slice find_method_in_caller_class find_named_handler has_prefix has_suffix contains
resolve_emitter_handler find_by_name expr caller_name file_path =
    if has_prefix expr (text "this.") && has_suffix expr (text ".bind(this)")
    then elim (slice 5 (length expr - length (text ".bind(this)")) expr) [
      | none ↦ none
      | some name ↦ some (find_method_in_caller_class find_by_name name caller_name)
    ]
    else if has_prefix expr (text "this.") && not (contains (drop 5 expr) (text "."))
    then some (find_method_in_caller_class find_by_name (drop 5 expr) caller_name)
    else if not (contains expr (text "."))
        && not (contains expr (text "("))
        && not (contains expr (text "=>"))
    then some (find_named_handler find_by_name expr file_path)
    else some []
