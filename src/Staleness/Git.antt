-- ===== src/Staleness/Git.antt =====
-- What internal/service/staleness.go reads from the output of git.
use Prim.Native.Nat.{◌+◌}
use mathlib.Core.Bool.{◌||◌, not}
use mathlib.Core.Option.{none, some}
use mathlib.Core.List.{List, [], ◌∷◌, ◌++◌}
use flash_code_graph.Common.Tests.{if◌then◌else◌, ltb, ◌==◌}
use flash_code_graph.Common.Lists.{length, drop, any, keep_if, is_empty}
use flash_code_graph.Common.Text.{Text, text, split, trim_space, index_of, cut_last, to_lower}
use flash_code_graph.Common.Sets.{in_set}

-- The path on a line of `git status --porcelain`.
unfoldable pub status_path : Text → Text
status_path line =
    let path = trim_space (drop 3 line) in
    elim (index_of path (text " -> ")) [ none ↦ path | some i ↦ drop (i + 4) path ]

-- The loop over the lines. The map `seen` has the elements of the result.
unfoldable pub collect_dirty : List Text → List Text → List Text
unfolding status_path
collect_dirty result [] = result
collect_dirty result (line ∷ lines) =
    let path = status_path line in
    collect_dirty
      (if ltb (length line) 4 || (is_empty path || in_set path result)
        then result
        else result ++ path ∷ [])
      lines

unfoldable pub list_git_dirty_files : Text → List Text
unfolding collect_dirty
list_git_dirty_files output = collect_dirty [] (split 10 output)

unfoldable pub list_git_diff_files : Text → List Text
list_git_diff_files output = keep_if (λ line. not (is_empty line)) (trimmed (split 10 output))
  where
    trimmed : List Text → List Text
    trimmed [] = []
    trimmed (line ∷ lines) = trim_space line ∷ trimmed lines

-- filepath.Ext: from the last dot behind the last slash on
unfoldable pub file_ext : Text → Text
file_ext path = elim (cut_last b'.' path) [
  | none ↦ []
  | some (before, after) ↦ if any (λ c. c == b'/') after then [] else b'.' ∷ after
]

abbrev pub source_extensions : List Text
source_extensions =
    text ".java"
    ∷ text ".go"
    ∷ text ".py"
    ∷ text ".ts"
    ∷ text ".tsx"
    ∷ text ".js"
    ∷ text ".jsx"
    ∷ []

unfoldable pub filter_source_files : List Text → List Text
unfolding file_ext
filter_source_files files =
    keep_if (λ path. in_set (to_lower (file_ext path)) source_extensions) files
