-- ===== src/Exports/Indexes.antt =====
-- What the file index and the alias index of `propagateExports` hold.
use mathlib.Core.Path.{◌≡◌, refl, sym, subst, ◌∙◌}
use mathlib.Core.Logic.{◌⊎◌, inl, inr}
use mathlib.Core.Bool.{Bool, true, false}
use mathlib.Core.Option.{Option, none, some}
use mathlib.Core.List.{List, [], ◌∷◌, ◌++◌, Memᴰ}
use native.Mathlib.Omega.{arith}
use flash_code_graph.Common.Tests.{if◌then◌else◌, Bool-cases}
use flash_code_graph.Common.Lists.{length, drop}
use flash_code_graph.Common.Text.{Text, text_eq, text_eq_iff, has_prefix}
use flash_code_graph.Common.Maps.{Map, lookup, insert, has_key, lookup-insert}
use flash_code_graph.Exports.{PathAlias, TsconfigPaths}
use flash_code_graph.Exports.Files.{
  with_slashes, add_alias, add_targets, add_aliases, add_alias_files, build_import_path_index,
  index_files, base_directory, strip_type_script_extension,
}

-- Every entry of the map has a property.
abbrev pub Entries : (Text → Text → Type 0) → Map Text → Type 0
Entries P m = (k v : Text) → lookup k m ≡ some v → P k v

Entries-insert :
    (P : Text → Text → Type 0) (k v : Text) (m : Map Text)
    → Entries P m
    → P k v
    → Entries P (insert k v m)
Entries-insert P k v m h p j w e =
    let at = sym (lookup-insert k j v m) ∙ e in
    elim (Bool-cases (text_eq k j)) [
      | inl same ↦
          let key : k ≡ j = (text_eq_iff k j).0 same in
          let value : v ≡ w = ground arith in subst (λ x. P x w) key (subst (P k) value p)
      | inr other ↦ h j w (ground arith)
    ]

pub Entries-nil : (P : Text → Text → Type 0) → Entries P []
unfolding lookup
Entries-nil P k v e = absurd (ground arith)

module _ (files : List Text) where
  -- A file, or the file with slashes for its backslashes.
  abbrev pub IsFileOf : Text → Text → Type 0
  IsFileOf k v = Memᴰ v files × ((k ≡ v) ⊎ (k ≡ with_slashes v))

  pub index_files-Entries :
      (index : Map Text) (some_files : List Text)
      → ((f : Text) → Memᴰ f some_files → Memᴰ f files)
      → Entries IsFileOf index
      → Entries IsFileOf (index_files index some_files)
  unfolding index_files
  index_files-Entries index [] inside h = h
  index_files-Entries index (f ∷ rest) inside h =
      let here = inside f (Memᴰ.head refl) in
      index_files-Entries (insert (with_slashes f) f (insert f f index)) rest
        (λ g m. inside g (Memᴰ.tail m))
        (Entries-insert IsFileOf (with_slashes f) f (insert f f index)
          (Entries-insert IsFileOf f f index h (here, inl refl)) (here, inr refl))

  abbrev pub Values : Map Text → Type 0
  Values m = Entries (λ k v. Memᴰ v files) m

  add_alias-Values :
      (base_url prefix target file : Text) (index : Map Text)
      → Memᴰ file files
      → Values index
      → Values (add_alias base_url prefix target file index)
  unfolding add_alias
  add_alias-Values base_url prefix target file index m h =
      elim (Bool-cases (has_prefix (with_slashes file) (base_directory base_url target))) [
        | inr outside ↦ rw (add_alias, outside) h
        | inl inside ↦
            let base = base_directory base_url target in
            let path =
              prefix ++ strip_type_script_extension (drop (length base) (with_slashes file)) in
            elim (Bool-cases (has_key path index)) [
              | inl taken ↦ rw (add_alias, inside, taken) h
              | inr free ↦
                  rw (add_alias, inside, free)
                    (Entries-insert (λ k v. Memᴰ v files) path file index h m)
            ]
      ]

  add_targets-Values :
      (base_url prefix : Text) (targets : List Text) (file : Text) (index : Map Text)
      → Memᴰ file files
      → Values index
      → Values (add_targets base_url prefix targets file index)
  unfolding add_targets
  add_targets-Values base_url prefix [] file index m h = h
  add_targets-Values base_url prefix (target ∷ targets) file index m h =
      add_targets-Values base_url prefix targets file (add_alias base_url prefix target file index)
        m (add_alias-Values base_url prefix target file index m h)

  add_aliases-Values :
      (base_url : Text) (aliases : List PathAlias) (file : Text) (index : Map Text)
      → Memᴰ file files
      → Values index
      → Values (add_aliases base_url aliases file index)
  unfolding add_aliases
  add_aliases-Values base_url [] file index m h = h
  add_aliases-Values base_url (alias ∷ aliases) file index m h =
      add_aliases-Values base_url aliases file
        (add_targets base_url alias.prefix alias.targets file index) m
        (add_targets-Values base_url alias.prefix alias.targets file index m h)

  add_alias_files-Values :
      (paths : TsconfigPaths) (some_files : List Text) (index : Map Text)
      → ((f : Text) → Memᴰ f some_files → Memᴰ f files)
      → Values index
      → Values (add_alias_files paths some_files index)
  unfolding add_alias_files
  add_alias_files-Values paths [] index inside h = h
  add_alias_files-Values paths (f ∷ rest) index inside h =
      add_alias_files-Values paths rest (add_aliases paths.base_url paths.aliases f index)
        (λ g m. inside g (Memᴰ.tail m))
        (add_aliases-Values paths.base_url paths.aliases f index (inside f (Memᴰ.head refl)) h)

  pub build_import_path_index-Values :
      (tsconfig : Option TsconfigPaths) → Values (build_import_path_index tsconfig files)
  unfolding build_import_path_index
  build_import_path_index-Values none = Entries-nil (λ k v. Memᴰ v files)
  build_import_path_index-Values (some paths) =
      add_alias_files-Values paths files [] (λ f m. m) (Entries-nil (λ k v. Memᴰ v files))

  pub if-Values : (b : Bool) (m n : Map Text) → Values m → Values n → Values (if b then m else n)
  if-Values true m n h k = h
  if-Values false m n h k = k
