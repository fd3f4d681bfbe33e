-- ===== src/Exports/Files.antt =====
-- The resolution of module paths to files. The empty text stands for no file. An index that is nil
-- in Go is the empty map.
use Prim.Native.Nat.{ℕ, zero, suc, ◌-◌}
use mathlib.Core.Bool.{Bool, ◌||◌}
use mathlib.Core.Option.{Option, none, some}
use mathlib.Core.List.{List, [], ◌∷◌, ◌++◌}
use flash_code_graph.Common.Tests.{if◌then◌else◌, ◌==◌}
use flash_code_graph.Common.Lists.{length, drop, find_first, is_empty}
use flash_code_graph.Common.Text.{
  Text, text, text_eq, has_prefix, has_suffix, trim_suffix, replace_byte, cut_last,
}
use flash_code_graph.Common.Maps.{Map, lookup, insert, has_key}
use flash_code_graph.Exports.{PathAlias, TsconfigPaths, FilePath}

-- strings.ReplaceAll(path, "\\", "/")
abbrev pub with_slashes : Text → Text
with_slashes path = replace_byte b'\\' b'/' path

abbrev pub type_script_extensions : List Text
type_script_extensions = text ".ts" ∷ text ".tsx" ∷ text ".js" ∷ text ".jsx" ∷ []

unfoldable pub strip_type_script_extension : Text → Text
strip_type_script_extension path = elim (find_first (has_suffix path) type_script_extensions) [
  | none ↦ path
  | some extension ↦ trim_suffix path extension
]

unfoldable pub base_directory : Text → Text → Text
base_directory base_url target =
    with_slashes (
      if text_eq base_url (text ".") || is_empty base_url
      then target
      else base_url ++ b'/' ∷ target)

-- The body of the innermost loop of `buildImportPathIndex`.
unfoldable pub add_alias : Text → Text → Text → Text → Map Text → Map Text
unfolding base_directory strip_type_script_extension
add_alias base_url prefix target file index =
    let base = base_directory base_url target in
    let alias_path =
      prefix ++ strip_type_script_extension (drop (length base) (with_slashes file)) in
    if has_prefix (with_slashes file) base
    then if has_key alias_path index then index else insert alias_path file index
    else index

unfoldable pub add_targets : Text → Text → List Text → Text → Map Text → Map Text
unfolding add_alias
add_targets base_url prefix [] file index = index
add_targets base_url prefix (target ∷ targets) file index =
    add_targets base_url prefix targets file (add_alias base_url prefix target file index)

unfoldable pub add_aliases : Text → List PathAlias → Text → Map Text → Map Text
unfolding add_targets
add_aliases base_url [] file index = index
add_aliases base_url (alias ∷ aliases) file index =
    add_aliases base_url aliases file (add_targets base_url alias.prefix alias.targets file index)

unfoldable pub add_alias_files : TsconfigPaths → List Text → Map Text → Map Text
unfolding add_aliases
add_alias_files paths [] index = index
add_alias_files paths (file ∷ files) index =
    add_alias_files paths files (add_aliases paths.base_url paths.aliases file index)

unfoldable pub build_import_path_index : Option TsconfigPaths → List Text → Map Text
unfolding add_alias_files
build_import_path_index none files = []
build_import_path_index (some paths) files = add_alias_files paths files []

-- The file index of `propagateExports`.
unfoldable pub index_files : Map Text → List Text → Map Text
index_files index [] = index
index_files index (file ∷ files) =
    index_files (insert (with_slashes file) file (insert file file index)) files

abbrev pub extended : Text → List Text → List Text
extended path [] = []
extended path (extension ∷ extensions) = (path ++ extension) ∷ extended path extensions

-- The first of some paths that the index has.
unfoldable pub first_indexed : Map Text → List Text → Text
first_indexed file_index paths = elim (find_first (λ p. has_key p file_index) paths) [
  | none ↦ []
  | some path ↦ path
]

unfoldable pub resolve_type_script_relative_import : FilePath → Text → Text → Map Text → Text
unfolding first_indexed
resolve_type_script_relative_import lib module_path from_file file_index =
    let resolved = with_slashes (lib.join (lib.dir from_file) module_path) in
    first_indexed file_index (
      extended resolved type_script_extensions
      ++ extended (resolved ++ text "/index") type_script_extensions)

-- The number of dots at the start.
unfoldable pub leading_dots : Text → ℕ
leading_dots [] = 0
leading_dots (c ∷ path) = let rest = leading_dots path in if c == b'.' then suc rest else 0

-- One level up for each dot but the first.
unfoldable pub climb : FilePath → ℕ → Text → Text
climb lib zero dir = dir
climb lib (suc levels) dir = climb lib levels (with_slashes (lib.dir dir))

unfoldable pub python_module : Map Text → Text → Text
unfolding first_indexed
python_module file_index path =
    first_indexed file_index ((path ++ text "/__init__.py") ∷ (path ++ text ".py") ∷ [])

unfoldable pub resolve_python_relative_import : FilePath → Text → Text → Map Text → Text
unfolding leading_dots climb python_module
resolve_python_relative_import lib module_path from_file file_index =
    let dots = leading_dots module_path in
    let module_part = replace_byte b'.' b'/' (drop dots module_path) in
    let dir = climb lib (dots - 1) (with_slashes (lib.dir from_file)) in
    python_module file_index
      (with_slashes (if text_eq dir (text ".") then module_part else dir ++ b'/' ∷ module_part))

unfoldable pub last_path_segment : Text → Text
last_path_segment path = elim (cut_last b'/' path) [ none ↦ path | some (before, after) ↦ after ]

unfoldable pub resolve_by_basename : Text → Map Text → Text
unfolding last_path_segment
resolve_by_basename module_path file_index =
    elim (lookup (last_path_segment module_path) file_index) [ none ↦ [] | some path ↦ path ]

unfoldable pub resolve_python_absolute_import : Text → Map Text → Text
unfolding python_module resolve_by_basename
resolve_python_absolute_import module_path file_index =
    let found = python_module file_index (replace_byte b'.' b'/' module_path) in
    if is_empty found then resolve_by_basename module_path file_index else found

abbrev pub is_type_script : Text → Bool
is_type_script language =
    text_eq language (text "typescript") || text_eq language (text "javascript")

unfoldable pub resolve_target_file : FilePath → Text → Text → Map Text → Map Text → Text → Text
unfolding resolve_type_script_relative_import resolve_python_relative_import
    resolve_python_absolute_import resolve_by_basename
resolve_target_file lib module_path from_file file_index import_path_index language =
    let is_python = text_eq language (text "python") in
    elim (lookup module_path import_path_index) [
      | some resolved ↦ resolved
      | none ↦
          if has_prefix module_path (text ".")
          then if is_python
            then resolve_python_relative_import lib module_path from_file file_index
            else if is_type_script language
            then resolve_type_script_relative_import lib module_path from_file file_index
            else []
          else if is_python
          then resolve_python_absolute_import module_path file_index
          else resolve_by_basename module_path file_index
    ]
