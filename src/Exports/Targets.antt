-- ===== src/Exports/Targets.antt =====
-- The files that imports are resolved to are files of the project.
use mathlib.Core.Path.{◌≡◌, refl}
use mathlib.Core.Logic.{◌⊎◌, inl, inr}
use mathlib.Core.Bool.{Bool, true, false}
use mathlib.Core.Option.{Option}
use mathlib.Core.List.{List, [], Memᴰ}
use native.Mathlib.Omega.{arith}
use flash_code_graph.Common.Tests.{if◌then◌else◌, Option-cases}
use flash_code_graph.Common.Lists.{find_first}
use flash_code_graph.Common.Keep.{find_first-some}
use flash_code_graph.Common.Text.{Text, text, text_eq, has_prefix}
use flash_code_graph.Common.Maps.{Map, lookup, has_key}
use flash_code_graph.Exports.{RawImport, TsconfigPaths, FilePath}
use flash_code_graph.Exports.Propagate.{import_resolver}
use flash_code_graph.Exports.Files.{
  with_slashes, build_import_path_index, index_files, first_indexed, python_module,
  resolve_by_basename, resolve_python_absolute_import, resolve_python_relative_import,
  resolve_type_script_relative_import, resolve_target_file, is_type_script, last_path_segment,
}
use flash_code_graph.Exports.Indexes.{
  Entries, Entries-nil, IsFileOf, Values, index_files-Entries, build_import_path_index-Values,
  if-Values,
}

module _ (files : List Text) where
  -- Nothing, a file, or a file with slashes for its backslashes.
  abbrev pub IsTarget : Text → Type 0
  IsTarget target =
      (target ≡ [])
      ⊎ ((file : Text) × Memᴰ file files × ((target ≡ file) ⊎ (target ≡ with_slashes file)))

  first_indexed-IsTarget :
      (index : Map Text) (paths : List Text)
      → Entries (IsFileOf files) index
      → IsTarget (first_indexed index paths)
  unfolding first_indexed has_key
  first_indexed-IsTarget index paths h =
      elim (Option-cases (find_first (λ p. has_key p index) paths)) [
        | inl absent ↦ rw (first_indexed, absent) (inl refl)
        | inr (path, found) ↦
            let (_, indexed) = find_first-some (λ p. has_key p index) paths path found in
            elim (Option-cases (lookup path index)) [
              | inl unknown ↦ absurd (ground (arith, indexed))
              | inr (file, at) ↦
                  let (mem, how) = h path file at in
                  rw (first_indexed, found) (inr (file, mem, how))
            ]
      ]

  resolve_by_basename-IsTarget :
      (module_path : Text) (index : Map Text)
      → Entries (IsFileOf files) index
      → IsTarget (resolve_by_basename module_path index)
  unfolding resolve_by_basename
  resolve_by_basename-IsTarget module_path index h =
      elim (Option-cases (lookup (last_path_segment module_path) index)) [
        | inl unknown ↦ rw (resolve_by_basename, unknown) (inl refl)
        | inr (file, at) ↦
            rw (resolve_by_basename, at)
              (inr (file, (h (last_path_segment module_path) file at).0, inl refl))
      ]

  if-IsTarget : (b : Bool) (t u : Text) → IsTarget t → IsTarget u → IsTarget (if b then t else u)
  if-IsTarget true t u h k = h
  if-IsTarget false t u h k = k

  relative_python-IsTarget :
      (lib : FilePath) (module_path from_file : Text) (index : Map Text)
      → Entries (IsFileOf files) index
      → IsTarget (resolve_python_relative_import lib module_path from_file index)
  unfolding resolve_python_relative_import python_module
  relative_python-IsTarget lib module_path from_file index h = first_indexed-IsTarget index _ h

  relative_type_script-IsTarget :
      (lib : FilePath) (module_path from_file : Text) (index : Map Text)
      → Entries (IsFileOf files) index
      → IsTarget (resolve_type_script_relative_import lib module_path from_file index)
  unfolding resolve_type_script_relative_import
  relative_type_script-IsTarget lib module_path from_file index h = first_indexed-IsTarget index _ h

  absolute_python-IsTarget :
      (module_path : Text) (index : Map Text)
      → Entries (IsFileOf files) index
      → IsTarget (resolve_python_absolute_import module_path index)
  unfolding resolve_python_absolute_import python_module
  absolute_python-IsTarget module_path index h =
      if-IsTarget _ (resolve_by_basename module_path index) _
        (resolve_by_basename-IsTarget module_path index h) (first_indexed-IsTarget index _ h)

  resolve-IsTarget :
      (lib : FilePath) (module_path from_file : Text) (index aliases : Map Text) (language : Text)
      → Entries (IsFileOf files) index
      → Values files aliases
      → IsTarget (resolve_target_file lib module_path from_file index aliases language)
  unfolding resolve_target_file
  resolve-IsTarget lib module_path from_file index aliases language h k =
      elim (Option-cases (lookup module_path aliases)) [
        | inr (file, at) ↦
            rw (resolve_target_file, at) (inr (file, k module_path file at, inl refl))
        | inl unknown ↦
            rw (resolve_target_file, unknown)
              (if-IsTarget (has_prefix module_path (text "."))
                (if text_eq language (text "python")
                  then resolve_python_relative_import lib module_path from_file index
                  else if is_type_script language
                  then resolve_type_script_relative_import lib module_path from_file index
                  else [])
                (if text_eq language (text "python")
                  then resolve_python_absolute_import module_path index
                  else resolve_by_basename module_path index)
                (if-IsTarget (text_eq language (text "python")) _ _
                  (relative_python-IsTarget lib module_path from_file index h)
                  (if-IsTarget (is_type_script language) _ []
                    (relative_type_script-IsTarget lib module_path from_file index h) (inl refl)))
                (if-IsTarget (text_eq language (text "python")) _ _
                  (absolute_python-IsTarget module_path index h)
                  (resolve_by_basename-IsTarget module_path index h)))
      ]

-- Whatever the module path, the importing file, the aliases and the functions on file paths are, the
-- file that `propagateExports` finds for an import is none, or a file of the project, its backslashes
-- possibly written as slashes.
pub import_resolver-IsTarget :
    (lib : FilePath) (tsconfig : Option TsconfigPaths) (files : List Text) (language : Text)
    (entry : RawImport)
    → IsTarget files (import_resolver lib tsconfig files language entry)
unfolding import_resolver build_import_path_index
import_resolver-IsTarget lib tsconfig files language entry =
    resolve-IsTarget files lib entry.module_path entry.file_path (index_files [] files) _ language
      (index_files-Entries files [] files (λ f m. m) (Entries-nil (IsFileOf files)))
      (if-Values files (is_type_script language) (build_import_path_index tsconfig files) []
        (build_import_path_index-Values files tsconfig) (Entries-nil (λ k v. Memᴰ v files)))
