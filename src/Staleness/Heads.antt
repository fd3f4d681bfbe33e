-- ===== src/Staleness/Heads.antt =====
-- The two ways to the commit that is checked out: through HEAD, and through the name of the branch.
use mathlib.Core.Path.{◌≡◌, refl}
use mathlib.Core.Option.{some}
use mathlib.Core.List.{◌++◌}
use flash_code_graph.Common.Text.{Text, text, has_prefix, trim_prefix, trim_space}
use flash_code_graph.Staleness.{
  Host, detect_branch, branch_of_head, read_commit, commit_of_head, read_git_head_commit,
  get_git_branch_commit,
}

-- If HEAD names a branch, and the file of that branch can be read, then the commit of HEAD is that of
-- the branch which `DetectBranch` finds.
pub get_git_branch_commit-detect_branch :
    (host : Host) (content name commit : Text)
    → host.read_git_file (text "HEAD") ≡ some content
    → trim_space content ≡ text "ref: refs/heads/" ++ name
    → host.read_git_file (text "refs/heads/" ++ name) ≡ some commit
    → (detect_branch host ≡ name)
      × (get_git_branch_commit host (detect_branch host) ≡ read_git_head_commit host)
unfolding read_commit detect_branch branch_of_head read_git_head_commit commit_of_head
    get_git_branch_commit has_prefix trim_prefix
get_git_branch_commit-detect_branch host content name commit head line file =
    let branch : detect_branch host ≡ name = rw (detect_branch, head) (rw line refl) in
    (
      branch,
      rw branch (
          rw (get_git_branch_commit, file, read_git_head_commit, head)
            (rw line (rw (read_commit, file) refl))),
    )
