-- ===== src/Staleness.antt =====
-- internal/service/staleness.go: whether an index is older than the source files. Git, the file
-- system and the fingerprint store are the fields of a `Host`, for one repository path.
pub mod Git
pub mod Changes
pub mod Failures
pub mod Warnings
pub mod Heads
mod Examples
use Prim.Native.Nat.{ℕ, suc, ◌+◌}
use mathlib.Core.Bool.{Bool, true, false, ◌&&◌, ◌||◌, not}
use mathlib.Core.Option.{Option, none, some}
use mathlib.Core.List.{List, [], ◌∷◌, ◌++◌}
use flash_code_graph.Common.Tests.{if◌then◌else◌, ltb, leb, ◌==◌}
use flash_code_graph.Common.Lists.{is_empty, take, length}
use flash_code_graph.Common.Text.{Text, text, text_eq, trim_space, has_prefix, trim_prefix}
use flash_code_graph.Common.Maps.{Map, lookup}
use flash_code_graph.Common.Sets.{add_to_set}
use flash_code_graph.Graph.{Reply, reply, failed}
use flash_code_graph.Staleness.Git.{list_git_dirty_files, list_git_diff_files, filter_source_files}

pub record FingerprintMeta : Type 0 where
  pub last_indexed_at : ℕ
  pub last_commit : Text

pub record Fingerprint : Type 0 where
  pub mod_time : ℕ
  pub size : ℕ

-- What the code asks of the outside. `stat` takes a path in the repository, `read_git_file` one in
-- its .git directory.
pub record Host : Type 0 where
  pub load_meta : Text → Reply (Option FingerprintMeta)
  pub load : Text → Reply (Map Fingerprint)
  pub has_git_dir : Bool
  pub read_git_file : Text → Option Text
  pub stat : Text → Option Fingerprint
  pub run_git_command : List Text → Text
  pub decimal : ℕ → Text
  pub quoted : Text → Text

pub record IndexStatus : Type 0 where
  pub is_stale : Bool
  pub added_files : ℕ
  pub modified_files : ℕ
  pub deleted_files : ℕ
  pub last_indexed_at : ℕ
  pub last_commit : Text
  pub current_commit : Text
  pub reason : Text
  pub message : Text

-- `DetectBranch` of internal/storage/branch/branch.go.
unfoldable pub branch_of_head : Text → Text
branch_of_head line =
    if has_prefix line (text "ref: refs/heads/")
    then trim_prefix line (text "ref: refs/heads/")
    else if leb 8 (length line)
    then take 8 line
    else text "default"

unfoldable pub detect_branch : Host → Text
unfolding branch_of_head
detect_branch host = elim (host.read_git_file (text "HEAD")) [
  | none ↦ text "default"
  | some content ↦ branch_of_head (trim_space content)
]

unfoldable pub read_commit : Host → Text → Text
read_commit host path = elim (host.read_git_file path) [
  | none ↦ []
  | some content ↦ trim_space content
]

-- `readGitHeadCommit` of internal/service/index_util.go.
unfoldable pub commit_of_head : Host → Text → Text
unfolding read_commit
commit_of_head host line =
    let referenced = read_commit host (trim_prefix line (text "ref: ")) in
    if has_prefix line (text "ref: ") then referenced else line

unfoldable pub read_git_head_commit : Host → Text
unfolding commit_of_head
read_git_head_commit host = elim (host.read_git_file (text "HEAD")) [
  | none ↦ []
  | some content ↦ commit_of_head host (trim_space content)
]

abbrev pub not_stale : IndexStatus
not_stale = record {
  is_stale = false;
  added_files = 0;
  modified_files = 0;
  deleted_files = 0;
  last_indexed_at = 0;
  last_commit = [];
  current_commit = [];
  reason = [];
  message = [];
}

-- The counts of added and of modified files.
pub record Counts : Type 0 where
  pub added : ℕ
  pub modified : ℕ

abbrev pub differs : Fingerprint → Option Fingerprint → Bool
differs stored none = true
differs stored (some current) =
    not (current.mod_time == stored.mod_time) || not (current.size == stored.size)

-- The loop over changed files, which stands twice in the source.
unfoldable pub count_changes : (Text → Option Fingerprint) → Map Fingerprint → List Text → Counts
count_changes stat fingerprints [] = record { added = 0; modified = 0 }
count_changes stat fingerprints (file ∷ files) =
    let rest = count_changes stat fingerprints files in
    elim (lookup file fingerprints) [
      | none ↦ record rest { added = rest.added + 1 }
      | some stored ↦
          if differs stored (stat file) then record rest { modified = rest.modified + 1 } else rest
    ]

abbrev pub counted_status : FingerprintMeta → Text → Counts → IndexStatus
counted_status meta current_commit counts = record {
  is_stale = ltb 0 (counts.added + counts.modified);
  added_files = counts.added;
  modified_files = counts.modified;
  deleted_files = 0;
  last_indexed_at = meta.last_indexed_at;
  last_commit = meta.last_commit;
  current_commit = current_commit;
  reason = text "files_changed";
  message = [];
}

-- The status for the files that changed, with the fingerprints loaded where there are any.
unfoldable pub changed_status : Host → Text → FingerprintMeta → Text → List Text → Reply IndexStatus
unfolding count_changes
changed_status host query_branch meta current_commit changed = elim (is_empty changed) [
  | true ↦
      reply (record not_stale {
        last_indexed_at = meta.last_indexed_at;
        last_commit = meta.last_commit;
      })
  | false ↦ elim (host.load query_branch) [
    | failed e ↦ failed (text "check index status: load fingerprints: " ++ e)
    | reply fingerprints ↦
        reply (counted_status meta current_commit (count_changes host.stat fingerprints changed))
  ]
]

unfoldable pub dirty_source_files : Host → List Text
dirty_source_files host =
    filter_source_files
      (list_git_dirty_files (host.run_git_command (text "status" ∷ text "--porcelain" ∷ [])))

unfoldable pub diff_source_files : Host → Text → List Text
diff_source_files host from_commit = filter_source_files (
    list_git_diff_files
      (host.run_git_command (text "diff" ∷ text "--name-only" ∷ from_commit ∷ text "HEAD" ∷ [])))

-- allChanged[f] = true for every file of a list
unfoldable pub add_changed : List Text → List Text → List Text
add_changed set [] = set
add_changed set (file ∷ files) = add_changed (add_to_set file set) files

unfoldable pub detect_same_branch_staleness : Host → Text → FingerprintMeta → Reply IndexStatus
unfolding changed_status dirty_source_files diff_source_files add_changed read_git_head_commit
detect_same_branch_staleness host query_branch meta =
    let current = read_git_head_commit host in
    let dirty = dirty_source_files host in
    if not (is_empty meta.last_commit) && not (is_empty current)
    then if text_eq current meta.last_commit
      then changed_status host query_branch meta [] dirty
      else changed_status host query_branch meta current
          (add_changed (add_changed [] (diff_source_files host meta.last_commit)) dirty)
    else reply (record not_stale {
      is_stale = not (text_eq current meta.last_commit);
      last_indexed_at = meta.last_indexed_at;
      last_commit = meta.last_commit;
      current_commit = current;
      reason = text "new_commits";
      message = text "Index may be outdated (no commit baseline recorded). Consider re-indexing.";
    })

unfoldable pub get_git_branch_commit : Host → Text → Text
get_git_branch_commit host branch_name =
    elim (host.read_git_file (text "refs/heads/" ++ branch_name)) [
      | some content ↦ trim_space content
      | none ↦ trim_space (host.run_git_command (text "rev-parse" ∷ branch_name ∷ []))
    ]

unfoldable pub detect_cross_branch_staleness : Host → Text → FingerprintMeta → IndexStatus
unfolding get_git_branch_commit
detect_cross_branch_staleness host query_branch meta =
    let latest = get_git_branch_commit host query_branch in
    let base = record not_stale {
      last_indexed_at = meta.last_indexed_at;
      last_commit = meta.last_commit;
    } in
    if is_empty latest
    then record base {
      message = text "Cannot resolve commit for branch " ++ (host.quoted query_branch ++ text ".");
    }
    else if is_empty meta.last_commit || not (text_eq latest meta.last_commit)
    then record base {
      is_stale = true;
      current_commit = latest;
      reason = text "new_commits";
      message =
          text "Branch " ++ (host.quoted query_branch ++ text " has new commits since last index.");
    }
    else base

unfoldable pub check_index_status : Host → Text → Reply IndexStatus
unfolding detect_same_branch_staleness detect_cross_branch_staleness detect_branch
check_index_status host query_branch = elim (host.load_meta query_branch) [
  | failed e ↦ failed (text "check index status: " ++ e)
  | reply none ↦ reply (record not_stale {
    is_stale = true;
    reason = text "not_indexed";
    message = text "Project has not been indexed yet. Run index_repository first.";
  })
  | reply (some meta) ↦
      if not host.has_git_dir
      then reply (record not_stale {
        reason = text "not_git_project";
        last_indexed_at = meta.last_indexed_at;
        message =
            text
              "Non-git project, unable to detect changes. Re-index if source files have changed.";
      })
      else if text_eq query_branch (detect_branch host)
      then detect_same_branch_staleness host query_branch meta
      else reply (detect_cross_branch_staleness host query_branch meta)
]

-- `CheckProjectStaleness`: an empty branch is the current one.
unfoldable pub check_project_staleness : Host → Text → Reply IndexStatus
unfolding check_index_status
check_project_staleness host query_branch =
    check_index_status host (if is_empty query_branch then detect_branch host else query_branch)

-- strings.Join(parts, ", ")
unfoldable pub join_parts : List Text → Text
join_parts [] = []
join_parts (part ∷ []) = part
join_parts (part ∷ next ∷ parts) = part ++ (text ", " ++ join_parts (next ∷ parts))

abbrev pub counted : Host → ℕ → Text → List Text → List Text
counted host n word parts = if ltb 0 n then (host.decimal n ++ word) ∷ parts else parts

-- `FormatStalenessWarning`, where `none` is a nil status.
unfoldable pub format_staleness_warning : Host → Option IndexStatus → Text
unfolding join_parts
format_staleness_warning host none = []
format_staleness_warning host (some status) =
    if not status.is_stale
    then []
    else if text_eq status.reason (text "not_indexed")
    then text "Index not found. Run index_repository to build the index."
    else if text_eq status.reason (text "new_commits")
    then text "Index outdated: branch has new commits (indexed: "
      ++ (take 7 status.last_commit
          ++ (text ", current: "
              ++ (take 7 status.current_commit ++ text "). Consider re-indexing.")))
    else if text_eq status.reason (text "files_changed")
    then text "Index outdated: "
      ++ (join_parts (
            counted host status.added_files (text " added") (
              counted host status.modified_files (text " modified")
                (counted host status.deleted_files (text " deleted") [])))
          ++ text " since last index. Consider re-indexing.")
    else []
