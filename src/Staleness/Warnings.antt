-- ===== src/Staleness/Warnings.antt =====
-- A warning is printed exactly for a stale index.
use mathlib.Core.Path.{◌≡◌, refl, subst}
use mathlib.Core.Logic.{inl, inr}
use mathlib.Core.Bool.{false, ◌&&◌, ◌||◌, not}
use mathlib.Core.Option.{none, some}
use mathlib.Core.List.{List, [], ◌∷◌}
use native.Mathlib.Omega.{arith}
use flash_code_graph.Common.Tests.{Bool-cases}
use flash_code_graph.Common.Lists.{is_empty}
use flash_code_graph.Common.Text.{Text, text, text_eq}
use flash_code_graph.Graph.{Reply, reply, failed}
use flash_code_graph.Staleness.{
  Host, FingerprintMeta, IndexStatus, changed_status, detect_same_branch_staleness,
  detect_cross_branch_staleness, check_index_status, detect_branch, read_git_head_commit,
  get_git_branch_commit, format_staleness_warning,
}
use flash_code_graph.Staleness.Failures.{Reply-cases}

-- A stale status has one of three reasons.
pub data Explained (status : IndexStatus) : Type 0 where
  fresh : status.is_stale ≡ false → Explained status
  not_indexed : status.reason ≡ text "not_indexed" → Explained status
  new_commits : status.reason ≡ text "new_commits" → Explained status
  files_changed : status.reason ≡ text "files_changed" → Explained status

abbrev ExplainedReply : Reply IndexStatus → Type 0
ExplainedReply (reply status) = Explained status
ExplainedReply (failed e) = Unit

changed_status-Explained :
    (host : Host) (branch : Text) (meta : FingerprintMeta) (current : Text) (changed : List Text)
    → ExplainedReply (changed_status host branch meta current changed)
unfolding changed_status
changed_status-Explained host branch meta current [] = fresh refl
changed_status-Explained host branch meta current (file ∷ files) =
    elim (Reply-cases (host.load branch)) [
      | inl (fingerprints, loaded) ↦ rw (changed_status, loaded) (files_changed refl)
      | inr (e, fails) ↦ rw (changed_status, fails) tt
    ]

same_branch-Explained :
    (host : Host) (branch : Text) (meta : FingerprintMeta)
    → ExplainedReply (detect_same_branch_staleness host branch meta)
unfolding detect_same_branch_staleness
same_branch-Explained host branch meta =
    elim (Bool-cases
      (not (is_empty meta.last_commit) && not (is_empty (read_git_head_commit host)))) [
        | inr unknown ↦ rw (detect_same_branch_staleness, unknown) (new_commits refl)
        | inl known ↦ elim (Bool-cases (text_eq (read_git_head_commit host) meta.last_commit)) [
          | inl same ↦
              rw (detect_same_branch_staleness, known, same)
                (changed_status-Explained host branch meta [] _)
          | inr moved ↦
              rw (detect_same_branch_staleness, known, moved)
                (changed_status-Explained host branch meta (read_git_head_commit host) _)
        ]
      ]

cross_branch-Explained :
    (host : Host) (branch : Text) (meta : FingerprintMeta)
    → Explained (detect_cross_branch_staleness host branch meta)
unfolding detect_cross_branch_staleness
cross_branch-Explained host branch meta =
    let latest = get_git_branch_commit host branch in
    elim (Bool-cases (is_empty latest)) [
      | inl unresolved ↦ rw (detect_cross_branch_staleness, unresolved) (fresh refl)
      | inr resolved ↦
          elim (Bool-cases (is_empty meta.last_commit || not (text_eq latest meta.last_commit))) [
            | inl moved ↦ rw (detect_cross_branch_staleness, resolved, moved) (new_commits refl)
            | inr same ↦ rw (detect_cross_branch_staleness, resolved, same) (fresh refl)
          ]
    ]

check_index_status-Explained :
    (host : Host) (branch : Text) → ExplainedReply (check_index_status host branch)
unfolding check_index_status
check_index_status-Explained host branch = elim (Reply-cases (host.load_meta branch)) [
  | inr (e, fails) ↦ rw (check_index_status, fails) tt
  | inl (none, loaded) ↦ rw (check_index_status, loaded) (not_indexed refl)
  | inl (some meta, loaded) ↦ elim (Bool-cases host.has_git_dir) [
    | inr plain ↦ rw (check_index_status, loaded, plain) (fresh refl)
    | inl git ↦ elim (Bool-cases (text_eq branch (detect_branch host))) [
      | inr other ↦
          rw (check_index_status, loaded, git, other) (cross_branch-Explained host branch meta)
      | inl same ↦
          rw (check_index_status, loaded, git, same) (same_branch-Explained host branch meta)
    ]
  ]
]

warning-Explained :
    (host : Host) (status : IndexStatus)
    → Explained status
    → is_empty (format_staleness_warning host (some status)) ≡ not status.is_stale
unfolding format_staleness_warning text_eq
warning-Explained host status why = elim (Bool-cases status.is_stale) [
  | inr up_to_date ↦ rw (format_staleness_warning, up_to_date) refl
  | inl stale ↦ elim why [
    | fresh e ↦ absurd (ground arith)
    | not_indexed e ↦ rw (format_staleness_warning, stale, e) refl
    | new_commits e ↦ rw (format_staleness_warning, stale, e) refl
    | files_changed e ↦ rw (format_staleness_warning, stale, e) refl
  ]
]

-- The status of `CheckIndexStatus` gives a warning that is not empty exactly if it says stale.
pub format_staleness_warning-check :
    (host : Host) (branch : Text) (status : IndexStatus)
    → check_index_status host branch ≡ reply status
    → is_empty (format_staleness_warning host (some status)) ≡ not status.is_stale
format_staleness_warning-check host branch status h =
    warning-Explained host status
      (subst ExplainedReply h (check_index_status-Explained host branch))
