-- ===== src/Staleness/Failures.antt =====
-- When `CheckIndexStatus` fails, and with what.
use mathlib.Core.Path.{◌≡◌, refl, ap, sym}
use mathlib.Core.Logic.{◌⊎◌, inl, inr}
use mathlib.Core.Bool.{◌&&◌, not}
use mathlib.Core.Option.{none, some}
use mathlib.Core.List.{List, [], ◌∷◌, ◌++◌}
use native.Mathlib.Omega.{arith}
use flash_code_graph.Common.Tests.{Bool-cases}
use flash_code_graph.Common.Lists.{is_empty}
use flash_code_graph.Common.Text.{Text, text, text_eq}
use flash_code_graph.Graph.{Reply, reply, failed}
use flash_code_graph.Staleness.{
  Host, FingerprintMeta, changed_status, detect_same_branch_staleness, check_index_status,
  detect_branch, read_git_head_commit,
}

pub Reply-cases :
    {A : Type 0} (r : Reply A) → ((a : A) × (r ≡ reply a)) ⊎ ((e : Text) × (r ≡ failed e))
Reply-cases (reply a) = inl (a, refl)
Reply-cases (failed e) = inr (e, refl)

-- The message of a failure.
message_of : {A : Type 0} → Reply A → Text
message_of (reply a) = []
message_of (failed e) = e

pub reply≢failed : {A : Type 0} {a : A} {e : Text} → ¬ (◌≡◌ {A = Reply A} (reply a) (failed e))
reply≢failed h = ground arith

-- The failure of the store behind a failure.
abbrev LoadFails : Host → Text → Text → Type 0
LoadFails host branch message =
    (e : Text) × (host.load branch ≡ failed e)
    × (message ≡ text "check index status: load fingerprints: " ++ e)

changed_status-failed :
    (host : Host) (branch : Text) (meta : FingerprintMeta) (current : Text) (changed : List Text)
    (message : Text)
    → changed_status host branch meta current changed ≡ failed message
    → LoadFails host branch message
unfolding changed_status message_of
changed_status-failed host branch meta current [] message h = absurd (reply≢failed h)
changed_status-failed host branch meta current (file ∷ files) message h =
    elim (Reply-cases (host.load branch)) [
      | inl (fingerprints, loaded) ↦ absurd (reply≢failed (rw (changed_status, loaded) at h))
      | inr (e, fails) ↦ (e, fails, sym (ap message_of (rw (changed_status, fails) at h)))
    ]

same_branch-failed :
    (host : Host) (branch : Text) (meta : FingerprintMeta) (message : Text)
    → detect_same_branch_staleness host branch meta ≡ failed message
    → LoadFails host branch message
unfolding detect_same_branch_staleness
same_branch-failed host branch meta message h =
    elim (Bool-cases
      (not (is_empty meta.last_commit) && not (is_empty (read_git_head_commit host)))) [
        | inr unknown ↦ absurd (reply≢failed (rw (detect_same_branch_staleness, unknown) at h))
        | inl known ↦ elim (Bool-cases (text_eq (read_git_head_commit host) meta.last_commit)) [
          | inl same ↦
              changed_status-failed host branch meta [] _ message
                (rw (detect_same_branch_staleness, known, same) at h)
          | inr moved ↦
              changed_status-failed host branch meta (read_git_head_commit host) _ message
                (rw (detect_same_branch_staleness, known, moved) at h)
        ]
      ]

-- `CheckIndexStatus` fails only if the fingerprint store does, and passes on the message of the store.
pub check_index_status-failed :
    (host : Host) (branch message : Text)
    → check_index_status host branch ≡ failed message
    → ((e : Text) × (host.load_meta branch ≡ failed e)
        × (message ≡ text "check index status: " ++ e))
      ⊎ ((e : Text) × (host.load branch ≡ failed e)
          × (message ≡ text "check index status: load fingerprints: " ++ e))
unfolding check_index_status message_of
check_index_status-failed host branch message h = elim (Reply-cases (host.load_meta branch)) [
  | inr (e, fails) ↦ inl (e, fails, sym (ap message_of (rw (check_index_status, fails) at h)))
  | inl (none, loaded) ↦ absurd (reply≢failed (rw (check_index_status, loaded) at h))
  | inl (some meta, loaded) ↦ elim (Bool-cases host.has_git_dir) [
    | inr plain ↦ absurd (reply≢failed (rw (check_index_status, loaded, plain) at h))
    | inl git ↦ elim (Bool-cases (text_eq branch (detect_branch host))) [
      | inr other ↦ absurd (reply≢failed (rw (check_index_status, loaded, git, other) at h))
      | inl same ↦ inr (
          same_branch-failed host branch meta message
            (rw (check_index_status, loaded, git, same) at h))
    ]
  ]
]
