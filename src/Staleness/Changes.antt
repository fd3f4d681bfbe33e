-- ===== src/Staleness/Changes.antt =====
-- What `CheckIndexStatus` says of the files that changed.
use Prim.Native.Nat.{◌+◌}
use mathlib.Core.Path.{◌≡◌, refl, ap₂, sym, ◌∙◌}
use mathlib.Core.Logic.{inl, inr}
use mathlib.Core.Bool.{Bool, true, false, ◌||◌}
use mathlib.Core.Option.{Option, none, some}
use mathlib.Core.List.{List, [], ◌∷◌}
use native.Mathlib.Omega.{arith}
use flash_code_graph.Common.Tests.{if◌then◌else◌, Bool-cases, Option-cases, ltb}
use flash_code_graph.Common.Lists.{length, is_empty, any, keep_if}
use flash_code_graph.Common.Text.{Text, text_eq, text_eq_iff}
use flash_code_graph.Common.Maps.{Map, lookup}
use flash_code_graph.Graph.{reply}
use flash_code_graph.Staleness.{
  Host, FingerprintMeta, Fingerprint, IndexStatus, count_changes, differs, counted_status,
  changed_status, dirty_source_files, diff_source_files, add_changed, detect_same_branch_staleness,
  check_index_status, detect_branch, read_git_head_commit,
}

-- A file that the index does not know.
abbrev pub is_new : Map Fingerprint → Text → Bool
is_new fingerprints file = elim (lookup file fingerprints) [ none ↦ true | some stored ↦ false ]

-- A file that the index knows with another content, or that is gone.
abbrev pub is_modified : (Text → Option Fingerprint) → Map Fingerprint → Text → Bool
is_modified stat fingerprints file = elim (lookup file fingerprints) [
  | none ↦ false
  | some stored ↦ differs stored (stat file)
]

count_changes-length :
    (stat : Text → Option Fingerprint) (fingerprints : Map Fingerprint) (files : List Text)
    → ((count_changes stat fingerprints files).added ≡ length (keep_if (is_new fingerprints) files))
      × ((count_changes stat fingerprints files).modified
          ≡ length (keep_if (is_modified stat fingerprints) files))
unfolding count_changes keep_if
count_changes-length stat fingerprints [] = (refl, refl)
count_changes-length stat fingerprints (file ∷ files) =
    let (added, modified) = count_changes-length stat fingerprints files in
    elim (Option-cases (lookup file fingerprints)) [
      | inl unknown ↦ ground (arith, unknown, added, modified)
      | inr (stored, known) ↦ elim (Bool-cases (differs stored (stat file))) [
        | inl other ↦ ground (arith, known, other, added, modified)
        | inr same ↦ ground (arith, known, same, added, modified)
      ]
    ]

-- A stored fingerprint may be missing for a file, or tell of another content.
abbrev pub is_outdated : Host → Map Fingerprint → Text → Bool
is_outdated host fingerprints file =
    is_new fingerprints file || is_modified host.stat fingerprints file

outdated-any :
    (host : Host) (fingerprints : Map Fingerprint) (files : List Text)
    → any (is_outdated host fingerprints) files
      ≡ ltb 0 (
          length (keep_if (is_new fingerprints) files)
          + length (keep_if (is_modified host.stat fingerprints) files))
unfolding any keep_if
outdated-any host fingerprints [] = ground arith
outdated-any host fingerprints (file ∷ files) =
    let rest = outdated-any host fingerprints files in
    elim (Bool-cases (is_new fingerprints file)) [
      | inl new ↦ elim (Bool-cases (is_modified host.stat fingerprints file)) [
        | inl moved ↦ rw (new, moved) (ground arith)
        | inr still ↦ rw (new, still) (ground arith)
      ]
      | inr old ↦ elim (Bool-cases (is_modified host.stat fingerprints file)) [
        | inl moved ↦ rw (old, moved) (ground arith)
        | inr still ↦ rw (old, still) rest
      ]
    ]

changed_status-outdated :
    (host : Host) (query_branch : Text) (meta : FingerprintMeta) (current : Text)
    (changed : List Text) (fingerprints : Map Fingerprint)
    → host.load query_branch ≡ reply fingerprints
    → (status : IndexStatus) × (changed_status host query_branch meta current changed
        ≡ reply status)
      × (status.is_stale ≡ any (is_outdated host fingerprints) changed)
      × (status.added_files ≡ length (keep_if (is_new fingerprints) changed))
      × (status.modified_files ≡ length (keep_if (is_modified host.stat fingerprints) changed))
unfolding changed_status any keep_if
changed_status-outdated host query_branch meta current [] fingerprints h =
    (_, refl, refl, refl, refl)
changed_status-outdated host query_branch meta current (file ∷ files) fingerprints h =
    let (added, modified) = count_changes-length host.stat fingerprints (file ∷ files) in
    (
      counted_status meta current (count_changes host.stat fingerprints (file ∷ files)),
      rw (changed_status, h) refl,
      ap₂ (λ x y. ltb 0 (x + y)) added modified
          ∙ sym (outdated-any host fingerprints (file ∷ files)),
      added,
      modified,
    )

-- The source files that git reports against the indexed commit and in the working tree.
abbrev pub changed_files : Host → FingerprintMeta → List Text
changed_files host meta =
    if text_eq (read_git_head_commit host) meta.last_commit
    then dirty_source_files host
    else add_changed (add_changed [] (diff_source_files host meta.last_commit))
        (dirty_source_files host)

-- For the branch that is checked out, with the commit of the index and that of the working tree known
-- and the fingerprints loaded, `CheckIndexStatus` succeeds. It says stale exactly if some source file
-- that git reports has no fingerprint, or another one than its own on disk, and counts the ones and
-- the others as added and as modified.
pub check_index_status-outdated :
    (host : Host) (branch : Text) (meta : FingerprintMeta) (fingerprints : Map Fingerprint)
    → host.load_meta branch ≡ reply (some meta)
    → host.load branch ≡ reply fingerprints
    → host.has_git_dir ≡ true
    → branch ≡ detect_branch host
    → is_empty meta.last_commit ≡ false
    → is_empty (read_git_head_commit host) ≡ false
    → (status : IndexStatus) × (check_index_status host branch ≡ reply status)
      × (status.is_stale ≡ any (is_outdated host fingerprints) (changed_files host meta))
      × (status.added_files ≡ length (keep_if (is_new fingerprints) (changed_files host meta)))
      × (status.modified_files
          ≡ length (keep_if (is_modified host.stat fingerprints) (changed_files host meta)))
unfolding check_index_status detect_same_branch_staleness
check_index_status-outdated host branch meta fingerprints indexed loaded git here known head =
    let same : text_eq branch (detect_branch host) ≡ true =
      (text_eq_iff branch (detect_branch host)).1 here in
    elim (Bool-cases (text_eq (read_git_head_commit host) meta.last_commit)) [
      | inl at ↦
          rw (check_index_status, indexed, git, same, detect_same_branch_staleness, known, head, at)
            (changed_status-outdated host branch meta [] (dirty_source_files host) fingerprints
              loaded)
      | inr moved ↦
          rw
            (
              check_index_status, indexed, git, same, detect_same_branch_staleness, known, head,
              moved,
            )
            (changed_status-outdated host branch meta (read_git_head_commit host) _ fingerprints
              loaded)
    ]
