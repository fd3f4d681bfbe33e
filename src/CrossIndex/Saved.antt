-- ===== src/CrossIndex/Saved.antt =====
-- Saving the index of internal/storage/crossindex/json_store.go and loading it again.
use mathlib.Core.Path.{◌≡◌, refl, sym, ◌∙◌, ap, subst, fun_ext}
use mathlib.Core.Logic.{◌⊎◌, inl, inr, ⊎_elim}
use mathlib.Core.Option.{Option, none, some}
use mathlib.Core.List.{◌++◌}
use flash_code_graph.Common.Tests.{Option-cases, if◌then◌else◌}
use flash_code_graph.Common.Text.{Text, text, text_eq}
use flash_code_graph.Common.Maps.{lookup, lookup-insert, lookup-remove}
use flash_code_graph.CrossIndex.{
  JsonIndex, JsonStore, ProjectEntry, with_project, without_project, project_key, new_json_store,
}
use flash_code_graph.CrossIndex.Disk.{
  Files, FilesLaws, and_then, and_then-cases, ReadsBack, content, loaded, load_result, load,
  replace_file, save_locked, register_project, unregister_project,
}

module _ {Disk : Type 0} (files : Files Disk) (path : Text) (laws : FilesLaws files path) where
  -- What a call that replaces the file leaves: the new bytes without an error, or the old file.
  abbrev Replaced : Text → Disk → Disk × Option Text → Type 0
  Replaced bytes disk (after, err) =
      ((err ≡ none) × (files.read_file path after ≡ content bytes))
      ⊎ ((e : Text) × (err ≡ some e) × (files.read_file path after ≡ files.read_file path disk))

  replace_file-Replaced :
      (bytes : Text) (disk : Disk) → Replaced bytes disk (replace_file files path bytes disk)
  unfolding replace_file
  replace_file-Replaced bytes disk =
      let temp_file = path ++ text ".tmp" in
      let result = files.write_file temp_file bytes disk in
      ⊎_elim
        (λ (writes, runs).
          subst (Replaced bytes disk) (sym runs)
            (elim (Option-cases ((files.rename temp_file path (result.0)).1)) [
              | inl moves ↦
                  inl
                    (moves, laws.rename_moves (result.0) moves ∙ laws.write_reads bytes disk writes)
              | inr (e, fails) ↦
                  inr (e, fails, laws.rename_keeps (result.0) e fails ∙ laws.write_keeps bytes disk)
            ]))
        (λ (e, fails, stops).
          subst (Replaced bytes disk) (sym stops) (inr (e, refl, laws.write_keeps bytes disk)))
        (and_then-cases result (files.rename temp_file path))

  -- Saving writes all or nothing.
  abbrev Saved : JsonStore → Disk → Disk × Option Text → Type 0
  Saved store disk (after, err) =
      ((err ≡ none)
        × ((files.marshal (store.index)).1 ≡ none)
        × (files.read_file path after ≡ content ((files.marshal (store.index)).0)))
      ⊎ ((e : Text) × (err ≡ some e) × (files.read_file path after ≡ files.read_file path disk))

  save_locked-Saved :
      (store : JsonStore) (disk : Disk)
      → store.file_path ≡ path
      → Saved store disk (save_locked files store disk)
  unfolding save_locked
  save_locked-Saved store disk here =
      let (bytes, err) = files.marshal (store.index) in
      let made = files.mkdir_all (files.dir (store.file_path)) disk in
      let kept : files.read_file path (made.0) ≡ files.read_file path disk =
        rw here (laws.mkdir_keeps disk) in
      let write = replace_file files (store.file_path) bytes in
      ⊎_elim
        (λ (encodes, runs). subst (Saved store disk) (sym runs) (
          ⊎_elim
            (λ (makes, writes). subst (Saved store disk) (sym writes) (
              ⊎_elim (λ (ends, reads). inl (ends, encodes, reads))
                (λ (e, fails, old). inr (e, fails, old ∙ kept))
                (subst (λ p. Replaced bytes (made.0) (replace_file files p bytes (made.0)))
                  (sym here) (replace_file-Replaced bytes (made.0)))))
            (λ (e, fails, stops). subst (Saved store disk) (sym stops) (inr (e, refl, kept)))
            (and_then-cases made write)))
        (λ (e, fails, stops). subst (Saved store disk) (sym stops) (inr (e, refl, refl)))
        (and_then-cases (disk, err)
          (λ d. and_then (files.mkdir_all (files.dir (store.file_path)) d) write))

  -- The file of the index holds these entries: a new store loads them.
  abbrev pub Holds : (Text → Option ProjectEntry) → Disk → Type 0
  Holds entries disk =
      (found : JsonStore) × (load files (new_json_store path) disk ≡ (found, none))
      × ((key : Text) → lookup key (found.index.projects) ≡ entries key)

  -- No store sees a difference between the two disks.
  abbrev pub Unchanged : Disk → Disk → Type 0
  Unchanged disk after =
      (index : JsonIndex)
      → load files (record { file_path = path; index = index }) after
        ≡ load files (record { file_path = path; index = index }) disk

  load-content :
      (bytes : Text) (disk : Disk)
      → files.read_file path disk ≡ content bytes
      → load files (new_json_store path) disk ≡ loaded (files.unmarshal bytes) (new_json_store path)
  unfolding load new_json_store load_result
  load-content bytes disk reads = ap (λ r. load_result files r (new_json_store path)) reads

  load-same :
      (disk after : Disk)
      → files.read_file path after ≡ files.read_file path disk
      → Unchanged disk after
  unfolding load
  load-same disk after same index =
      ap (λ r. load_result files r (record { file_path = path; index = index })) same

  load-saved :
      (store : JsonStore) (disk : Disk)
      → ReadsBack files (store.index)
      → (files.marshal (store.index)).1 ≡ none
      → files.read_file path disk ≡ content ((files.marshal (store.index)).0)
      → Holds (λ key. lookup key (store.index.projects)) disk
  unfolding loaded new_json_store
  load-saved store disk back encodes reads =
      let (projects, parses, same) = back encodes in
      (
        record {
          file_path = path;
          index = record { version = store.index.version; projects = projects };
        },
        load-content ((files.marshal (store.index)).0) disk reads
            ∙ ap (λ r. loaded r (new_json_store path)) parses,
        same,
      )

  -- What a change to the index leaves on the disk: the entries of the changed store, or an error and
  -- the file as it was.
  abbrev pub Persists : (Text → Option ProjectEntry) → Disk → Disk → Option Text → Type 0
  Persists entries disk after err =
      ((err ≡ none) × Holds entries after) ⊎ ((e : Text) × (err ≡ some e) × Unchanged disk after)

  save_locked-Persists :
      (store : JsonStore) (disk : Disk)
      → store.file_path ≡ path
      → ReadsBack files (store.index)
      → (let (after, err) = save_locked files store disk in
          Persists (λ key. lookup key (store.index.projects)) disk after err)
  save_locked-Persists store disk here back =
      let after = (save_locked files store disk).0 in
      ⊎_elim (λ (ends, encodes, reads). inl (ends, load-saved store after back encodes reads))
        (λ (e, fails, old). inr (e, fails, load-same disk after old))
        (save_locked-Saved store disk here)

  -- Registering a project saves all or nothing: if it ends without an error, a new store loads from
  -- the file the entries that were there with the project put in or replaced; if it ends with an
  -- error, a store that loads the file finds what it would have found before. It is asked that the
  -- file system keeps to its laws at the two files, and that the JSON of the index reads back.
  pub register_project-Persists :
      (entry : ProjectEntry) (store : JsonStore) (disk : Disk)
      → store.file_path ≡ path
      → ReadsBack files ((with_project entry store).index)
      → (let (changed, after, err) = register_project files entry store disk in
          Persists
            (λ key.
              if text_eq (project_key (entry.project_path) (entry.branch)) key
              then some entry
              else lookup key (store.index.projects))
            disk
            after
            err)
  unfolding register_project with_project
  register_project-Persists entry store disk here back =
      let saved = save_locked files (with_project entry store) disk in
      subst (λ entries. Persists entries disk (saved.0) (saved.1))
        (fun_ext (λ key.
          lookup-insert (project_key (entry.project_path) (entry.branch)) key entry
            (store.index.projects)))
        (save_locked-Persists (with_project entry store) disk here back)

  -- Taking a project out saves all or nothing in the same way.
  pub unregister_project-Persists :
      (project_path branch : Text) (store : JsonStore) (disk : Disk)
      → store.file_path ≡ path
      → ReadsBack files ((without_project project_path branch store).index)
      → (let (changed, after, err) = unregister_project files project_path branch store disk in
          Persists
            (λ key.
              if text_eq (project_key project_path branch) key
              then none
              else lookup key (store.index.projects))
            disk
            after
            err)
  unfolding unregister_project without_project
  unregister_project-Persists project_path branch store disk here back =
      let saved = save_locked files (without_project project_path branch store) disk in
      subst (λ entries. Persists entries disk (saved.0) (saved.1))
        (fun_ext
          (λ key. lookup-remove (project_key project_path branch) key (store.index.projects)))
        (save_locked-Persists (without_project project_path branch store) disk here back)
