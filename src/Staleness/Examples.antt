-- ===== src/Staleness/Examples.antt =====
-- A repository on the branch main with a changed and a new file, on which the theorems about the age
-- of an index are applied.
use mathlib.Core.Path.{◌≡◌, refl}
use mathlib.Core.Logic.{◌⊎◌}
use mathlib.Core.Bool.{true, false}
use mathlib.Core.Option.{Option, none, some}
use mathlib.Core.List.{List, [], ◌∷◌, ◌++◌}
use flash_code_graph.Common.Tests.{if◌then◌else◌}
use flash_code_graph.Common.Lists.{length, is_empty, any, keep_if}
use flash_code_graph.Common.Text.{
  Text, text, text_eq, trim_space, has_prefix, trim_prefix, split, index_of, cut_last, to_lower,
}
use flash_code_graph.Common.Maps.{Map}
use flash_code_graph.Common.Sets.{in_set}
use flash_code_graph.Graph.{reply, failed}
use flash_code_graph.Staleness.{
  Host, FingerprintMeta, Fingerprint, IndexStatus, check_index_status, detect_branch,
  branch_of_head, commit_of_head, read_commit, read_git_head_commit, get_git_branch_commit,
  format_staleness_warning,
}
use flash_code_graph.Staleness.Git.{list_git_dirty_files, filter_source_files}
use flash_code_graph.Staleness.Changes.{
  is_new, is_modified, is_outdated, changed_files, check_index_status-outdated,
}
use flash_code_graph.Staleness.Failures.{check_index_status-failed}
use flash_code_graph.Staleness.Warnings.{format_staleness_warning-check}
use flash_code_graph.Staleness.Heads.{get_git_branch_commit-detect_branch}

abbrev meta : FingerprintMeta
meta = record { last_indexed_at = 100; last_commit = text "abc" }

abbrev stored : Map Fingerprint
stored = (text "a.go", record { mod_time = 90; size = 10 }) ∷ []

abbrev head_line : Text
head_line = text "ref: refs/heads/main" ++ 10 ∷ []

git_file : Text → Option Text
git_file path =
    if text_eq path (text "HEAD")
    then some head_line
    else if text_eq path (text "refs/heads/main")
    then some (text "abc" ++ 10 ∷ [])
    else none

abbrev status_output : List Text → Text
status_output arguments = text " M a.go" ++ 10 ∷ text "?? new.go" ++ 10 ∷ []

abbrev repository : Host
repository = record {
  load_meta = λ branch. reply (some meta);
  load = λ branch. reply stored;
  has_git_dir = true;
  read_git_file = git_file;
  stat = λ path. some (record { mod_time = 120; size = 10 });
  run_git_command = status_output;
  decimal = λ n. text "1";
  quoted = λ s. s;
}

head_read : repository.read_git_file (text "HEAD") ≡ some head_line
unfolding git_file text_eq
head_read = refl

branch_read : repository.read_git_file (text "refs/heads/main") ≡ some (text "abc" ++ 10 ∷ [])
unfolding git_file text_eq
branch_read = refl

head_trimmed : trim_space head_line ≡ text "ref: refs/heads/main"
unfolding trim_space
head_trimmed = refl

main_commit :
    (detect_branch repository ≡ text "main")
    × (get_git_branch_commit repository (detect_branch repository)
        ≡ read_git_head_commit repository)
main_commit =
    get_git_branch_commit-detect_branch repository head_line (text "main") (text "abc" ++ 10 ∷ [])
      head_read head_trimmed branch_read

on_main : text "main" ≡ detect_branch repository
unfolding detect_branch git_file text_eq branch_of_head trim_space has_prefix trim_prefix
on_main = refl

head_known : is_empty (read_git_head_commit repository) ≡ false
unfolding read_git_head_commit git_file text_eq commit_of_head read_commit trim_space has_prefix
    trim_prefix
head_known = refl

check_index_status-outdated_example :
    (status : IndexStatus) × (check_index_status repository (text "main") ≡ reply status)
    × (status.is_stale ≡ any (is_outdated repository stored) (changed_files repository meta))
    × (status.added_files ≡ length (keep_if (is_new stored) (changed_files repository meta)))
    × (status.modified_files
        ≡ length (keep_if (is_modified repository.stat stored) (changed_files repository meta)))
check_index_status-outdated_example =
    check_index_status-outdated repository (text "main") meta stored refl refl refl on_main refl
      head_known

abbrev broken : Host
broken = record repository { load_meta = λ branch. failed (text "no access") }

check_fails :
    check_index_status broken (text "main") ≡ failed (text "check index status: no access")
unfolding check_index_status
check_fails = refl

check_index_status-failed_example :
    ((e : Text) × (broken.load_meta (text "main") ≡ failed e)
      × (text "check index status: no access" ≡ text "check index status: " ++ e))
    ⊎ ((e : Text) × (broken.load (text "main") ≡ failed e)
        × (text "check index status: no access"
            ≡ text "check index status: load fingerprints: " ++ e))
check_index_status-failed_example =
    check_index_status-failed broken (text "main") (text "check index status: no access")
      check_fails

abbrev unindexed : Host
unindexed = record repository { load_meta = λ branch. reply none }

abbrev first_status : IndexStatus
first_status = record {
  is_stale = true;
  added_files = 0;
  modified_files = 0;
  deleted_files = 0;
  last_indexed_at = 0;
  last_commit = [];
  current_commit = [];
  reason = text "not_indexed";
  message = text "Project has not been indexed yet. Run index_repository first.";
}

first_checked : check_index_status unindexed (text "main") ≡ reply first_status
unfolding check_index_status
first_checked = refl

format_staleness_warning-check_example :
    is_empty (format_staleness_warning unindexed (some first_status)) ≡ false
format_staleness_warning-check_example =
    format_staleness_warning-check unindexed (text "main") first_status first_checked

-- A new directory, which git reports as one entry, has no source file for the filter.
new_directory_ignored : filter_source_files (list_git_dirty_files (text "?? pkg/" ++ 10 ∷ [])) ≡ []
unfolding filter_source_files keep_if list_git_dirty_files split index_of trim_space in_set any
    text_eq to_lower cut_last
new_directory_ignored = refl
