-- ===== src/CrossIndex/Projects.antt =====
-- The projects that the index of internal/storage/crossindex/json_store.go holds: one for each path
-- and branch, and the matches of a lookup lie in the projects that the caller depends on. A branch
-- name has no colon, as git demands.
use Prim.Native.Nat.{ℕ}
use mathlib.Core.Path.{◌≡◌, refl, sym, ◌∙◌, ap, subst}
use mathlib.Core.Logic.{inl, inr}
use mathlib.Core.Bool.{◌&&◌}
use mathlib.Core.Option.{Option, none, some}
use mathlib.Core.List.{List, [], ◌∷◌, ◌++◌, Memᴰ, append_cancel_right}
use native.Mathlib.Omega.{arith}
use flash_code_graph.Common.Tests.{Bool-cases, Bool-ext, &&-eq-true, if◌then◌else◌}
use flash_code_graph.Common.Lists.{All}
use flash_code_graph.Common.Text.{Text, text_eq, text_eq_refl, text_eq_sound, cut_last}
use flash_code_graph.Common.Maps.{lookup, lookup-insert, lookup-remove}
use flash_code_graph.Common.Sets.{Distinct}
use flash_code_graph.Common.Traverse.{All-at}
use flash_code_graph.Common.Keys.{keys, Distinct-insert, Distinct-remove}
use flash_code_graph.Route.Segments.{NoByte}
use flash_code_graph.CrossIndex.{
  ProjectEntry, Dependency, SymbolMatch, JsonStore, project_key, new_json_store, with_project,
  without_project, lookup_symbol,
}
use flash_code_graph.CrossIndex.Matches.{lookup_symbol_lem}

cut_last-NoByte : (c : ℕ) (s : Text) → NoByte c s → cut_last c s ≡ none
unfolding cut_last
cut_last-NoByte c [] h = refl
cut_last-NoByte c (d ∷ s) h = rw (cut_last-NoByte c s h.1, h.0) refl

cut_last-append :
    (c : ℕ) (before after : Text)
    → NoByte c after
    → cut_last c (before ++ c ∷ after) ≡ some (before, after)
unfolding cut_last
cut_last-append c [] after h = rw (cut_last-NoByte c after h) (ground arith)
cut_last-append c (d ∷ before) after h = rw (cut_last-append c before after h) refl

key-shape :
    (project_path branch : Text)
    → project_key project_path branch ≡ (project_path ++ b':' ∷ []) ++ b':' ∷ branch
unfolding project_key
key-shape [] branch = refl
key-shape (c ∷ project_path) branch = ap (λ (z : Text). c ∷ z) (key-shape project_path branch)

-- A key tells the path and the branch.
pub project_key_injective :
    (path path' branch branch' : Text)
    → NoByte b':' branch
    → NoByte b':' branch'
    → project_key path branch ≡ project_key path' branch'
    → (path ≡ path') × (branch ≡ branch')
project_key_injective path path' branch branch' h h' e =
    let cuts : ◌≡◌ {A = Option (Text × Text)} (some (path ++ b':' ∷ [], branch))
        (some (path' ++ b':' ∷ [], branch')) =
      sym (cut_last-append b':' (path ++ b':' ∷ []) branch h)
      ∙ ap (cut_last b':') (sym (key-shape path branch) ∙ e ∙ key-shape path' branch')
      ∙ cut_last-append b':' (path' ++ b':' ∷ []) branch' h' in
    let fronts : path ++ b':' ∷ [] ≡ path' ++ b':' ∷ [] = ground arith in
    (append_cancel_right path path' (b':' ∷ []) fronts, ground arith)

-- What happens to an index, the last change first.
pub data Change : Type 0 where
  registered : ProjectEntry → Change
  unregistered : Text → Text → Change

abbrev pub replay : Text → List Change → JsonStore
replay file_path [] = new_json_store file_path
replay file_path (registered entry ∷ earlier) = with_project entry (replay file_path earlier)
replay file_path (unregistered project_path branch ∷ earlier) =
    without_project project_path branch (replay file_path earlier)

abbrev pub HasBranch : Change → Type 0
HasBranch (registered entry) = NoByte b':' (entry.branch)
HasBranch (unregistered project_path branch) = NoByte b':' branch

-- The abstract index: what was registered last for a path and a branch.
abbrev pub table : List Change → Text → Text → Option ProjectEntry
table [] path branch = none
table (registered entry ∷ earlier) path branch =
    if text_eq (entry.project_path) path && text_eq (entry.branch) branch
    then some entry
    else table earlier path branch
table (unregistered project_path project_branch ∷ earlier) path branch =
    if text_eq project_path path && text_eq project_branch branch
    then none
    else table earlier path branch

text_eq-project_key :
    (path path' branch branch' : Text)
    → NoByte b':' branch
    → NoByte b':' branch'
    → text_eq (project_key path branch) (project_key path' branch')
      ≡ (text_eq path path' && text_eq branch branch')
text_eq-project_key path path' branch branch' h h' =
    Bool-ext _ _
      (λ same.
        let (e, f) =
          project_key_injective path path' branch branch' h h'
            (text_eq_sound (project_key path branch) (project_key path' branch') same) in
        rw (e, f, text_eq_refl path', text_eq_refl branch') refl)
      (λ both.
        let (e, f) = &&-eq-true (text_eq path path') (text_eq branch branch') both in
        rw (text_eq_sound path path' e, text_eq_sound branch branch' f)
          (text_eq_refl (project_key path' branch')))

-- After any registrations and removals of projects whose branches have no colon, the index holds for
-- each path and each branch without a colon what was registered last for them, and nothing if
-- nothing was registered or it was taken out since.
pub replay-table :
    (file_path : Text) (changes : List Change) (path branch : Text)
    → All HasBranch changes
    → NoByte b':' branch
    → lookup (project_key path branch) ((replay file_path changes).index.projects)
      ≡ table changes path branch
unfolding new_json_store with_project without_project lookup
replay-table file_path [] path branch h n = refl
replay-table file_path (registered entry ∷ earlier) path branch h n =
    rw
      (
        lookup-insert (project_key (entry.project_path) (entry.branch)) (project_key path branch)
            entry ((replay file_path earlier).index.projects),
        text_eq-project_key (entry.project_path) path (entry.branch) branch h.0 n,
        replay-table file_path earlier path branch h.1 n,
      )
      refl
replay-table file_path (unregistered project_path project_branch ∷ earlier) path branch h n =
    rw
      (
        lookup-remove (project_key project_path project_branch) (project_key path branch)
            ((replay file_path earlier).index.projects),
        text_eq-project_key project_path path project_branch branch h.0 n,
        replay-table file_path earlier path branch h.1 n,
      )
      refl

-- Each project stands under its own key, and no key stands twice.
abbrev pub WellKeyed : JsonStore → Type 0
WellKeyed store =
    Distinct (keys (store.index.projects))
    × ((key : Text) (entry : ProjectEntry)
        → lookup key (store.index.projects) ≡ some entry
        → (key ≡ project_key (entry.project_path) (entry.branch)) × NoByte b':' (entry.branch))

pub replay-WellKeyed :
    (file_path : Text) (changes : List Change)
    → All HasBranch changes
    → WellKeyed (replay file_path changes)
unfolding new_json_store with_project without_project lookup
replay-WellKeyed file_path [] h = (tt, λ key entry e. absurd (ground arith))
replay-WellKeyed file_path (registered new ∷ earlier) h =
    let (distinct, keyed) = replay-WellKeyed file_path earlier h.1 in
    let projects = (replay file_path earlier).index.projects in
    let new_key = project_key (new.project_path) (new.branch) in
    (
      Distinct-insert new_key new projects distinct,
      λ key entry e. elim (Bool-cases (text_eq new_key key)) [
        | inl same ↦
            let this : new ≡ entry = ground (arith, lookup-insert new_key key new projects) in
            subst (λ z. (key ≡ project_key (z.project_path) (z.branch)) × NoByte b':' (z.branch))
              this (sym (text_eq_sound new_key key same), h.0)
        | inr other ↦ keyed key entry (ground (arith, lookup-insert new_key key new projects))
      ],
    )
replay-WellKeyed file_path (unregistered project_path branch ∷ earlier) h =
    let (distinct, keyed) = replay-WellKeyed file_path earlier h.1 in
    let projects = (replay file_path earlier).index.projects in
    let old_key = project_key project_path branch in
    (
      Distinct-remove old_key projects distinct,
      λ key entry e. keyed key entry (ground (arith, lookup-remove old_key key projects)),
    )

-- After any registrations and removals, with branches that have no colon, a match of a lookup has
-- the path and the branch of one of the dependencies, and its symbol is one that was registered
-- last for them.
pub lookup_symbol-InScope :
    (file_path : Text) (changes : List Change) (name : Text) (dependencies : List Dependency)
    (m : SymbolMatch)
    → All HasBranch changes
    → All (λ d. NoByte b':' (d.branch)) dependencies
    → Memᴰ m (lookup_symbol name dependencies (replay file_path changes))
    → (d : Dependency) × Memᴰ d dependencies
      × (m.project_path ≡ d.path)
      × (m.branch ≡ d.branch)
      × (entry : ProjectEntry) × (table changes (d.path) (d.branch) ≡ some entry)
      × Memᴰ (m.symbol) (entry.symbols)
lookup_symbol-InScope file_path changes name dependencies m h n found =
    let store = replay file_path changes in
    let (distinct, keyed) = replay-WellKeyed file_path changes h in
    let (d, listed, entry, stored, symbol, at, named, same) =
      (lookup_symbol_lem name dependencies store m distinct).0 found in
    let colonless = All-at (λ (z : Dependency). NoByte b':' (z.branch)) dependencies d n listed in
    let (e, own) = keyed (project_key (d.path) (d.branch)) entry stored in
    let (p, b) =
      project_key_injective (d.path) (entry.project_path) (d.branch) (entry.branch) colonless own
        e in
    (
      d,
      listed,
      ap (λ z. z.project_path) (sym same) ∙ sym p,
      ap (λ z. z.branch) (sym same) ∙ sym b,
      entry,
      sym (replay-table file_path changes (d.path) (d.branch) h colonless) ∙ stored,
      subst (λ z. Memᴰ (z.symbol) (entry.symbols)) same at,
    )
