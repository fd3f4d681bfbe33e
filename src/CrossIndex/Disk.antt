-- ===== src/CrossIndex/Disk.antt =====
-- Reading and writing the file of the index in internal/storage/crossindex/json_store.go. The file
-- system and the JSON package are parameters, with the laws of them that saving relies on.
use Prim.Native.Nat.{ℕ}
use mathlib.Core.Path.{◌≡◌, refl}
use mathlib.Core.Logic.{◌⊎◌, inl, inr}
use mathlib.Core.Option.{Option, none, some}
use mathlib.Core.List.{[], ◌++◌}
use flash_code_graph.Common.Text.{Text, text}
use flash_code_graph.Common.Maps.{Map, lookup}
use flash_code_graph.CrossIndex.{JsonIndex, JsonStore, ProjectEntry, with_project, without_project}

-- os.ReadFile: the content, os.IsNotExist, or another error
pub data ReadResult : Type 0 where
  content : Text → ReadResult
  not_exist : ReadResult
  read_error : Text → ReadResult

-- What json.Unmarshal fills. A map that the file does not have, or has as null, is nil: `none`.
pub record ParsedIndex : Type 0 where
  pub version : ℕ
  pub projects : Option (Map ProjectEntry)

-- The calls of the outside on a disk. An error is `some` message, nil is `none`.
pub record Files (Disk : Type 0) : Type 0 where
  pub read_file : Text → Disk → ReadResult
  pub mkdir_all : Text → Disk → Disk × Option Text
  pub write_file : Text → Text → Disk → Disk × Option Text
  pub rename : Text → Text → Disk → Disk × Option Text
  pub dir : Text → Text
  pub marshal : JsonIndex → Text × Option Text
  pub unmarshal : Text → ParsedIndex × Option Text

-- `if err := f(); err != nil { return err }`
unfoldable pub and_then :
    {Disk : Type 0} → Disk × Option Text → (Disk → Disk × Option Text) → Disk × Option Text
and_then (disk, some e) next = (disk, some e)
and_then (disk, none) next = next disk

pub and_then-cases :
    {Disk : Type 0} (first : Disk × Option Text) (next : Disk → Disk × Option Text)
    → ((first.1 ≡ none) × (and_then first next ≡ next (first.0)))
      ⊎ ((e : Text) × (first.1 ≡ some e) × (and_then first next ≡ (first.0, some e)))
unfolding and_then
and_then-cases (disk, none) next = inl (refl, refl)
and_then-cases (disk, some e) next = inr (e, refl, refl)

-- What loading does with the parsed content.
unfoldable pub loaded : ParsedIndex × Option Text → JsonStore → JsonStore × Option Text
loaded (parsed, some e) store = (store, some e)
loaded (parsed, none) store = elim (parsed.projects) [
  | none ↦ (record store { index = record { version = parsed.version; projects = [] } }, none)
  | some projects ↦
      (record store { index = record { version = parsed.version; projects = projects } }, none)
]

module _ {Disk : Type 0} (files : Files Disk) where
  unfoldable pub load_result : ReadResult → JsonStore → JsonStore × Option Text
  unfolding loaded
  load_result not_exist store = (store, none)
  load_result (read_error e) store = (store, some e)
  load_result (content bytes) store = loaded (files.unmarshal bytes) store

  unfoldable pub load : JsonStore → Disk → JsonStore × Option Text
  unfolding load_result
  load store disk = load_result (files.read_file (store.file_path) disk) store

  -- The temporary file, and the renaming to the file of the index.
  unfoldable pub replace_file : Text → Text → Disk → Disk × Option Text
  unfolding and_then
  replace_file path bytes disk =
      let temp_file = path ++ text ".tmp" in
      and_then (files.write_file temp_file bytes disk) (files.rename temp_file path)

  unfoldable pub save_locked : JsonStore → Disk → Disk × Option Text
  unfolding and_then replace_file
  save_locked store disk =
      let (bytes, err) = files.marshal (store.index) in
      and_then (disk, err)
        (λ d.
          and_then (files.mkdir_all (files.dir (store.file_path)) d)
            (replace_file (store.file_path) bytes))

  unfoldable save : JsonStore → Disk → Disk × Option Text
  unfolding save_locked
  save store disk = save_locked store disk

  -- The store in memory, the disk and the error.
  unfoldable pub register_project : ProjectEntry → JsonStore → Disk → JsonStore × Disk × Option Text
  unfolding with_project save_locked
  register_project entry store disk =
      let changed = with_project entry store in
      let (saved, err) = save_locked changed disk in (changed, saved, err)

  unfoldable pub unregister_project :
      Text → Text → JsonStore → Disk → JsonStore × Disk × Option Text
  unfolding without_project save_locked
  unregister_project project_path branch store disk =
      let changed = without_project project_path branch store in
      let (saved, err) = save_locked changed disk in (changed, saved, err)

  -- What saving relies on, for the file of the index and the temporary file beside it: a call that
  -- is for another file leaves the index as it is, renaming puts the whole new file in place or,
  -- when it fails, leaves the old one.
  pub record FilesLaws (path : Text) : Type 0 where
    pub mkdir_keeps :
        (disk : Disk)
        → files.read_file path ((files.mkdir_all (files.dir path) disk).0)
          ≡ files.read_file path disk
    pub write_keeps :
        (bytes : Text) (disk : Disk)
        → files.read_file path ((files.write_file (path ++ text ".tmp") bytes disk).0)
          ≡ files.read_file path disk
    pub write_reads :
        (bytes : Text) (disk : Disk)
        → (files.write_file (path ++ text ".tmp") bytes disk).1 ≡ none
        → files.read_file
            (path ++ text ".tmp")
            ((files.write_file (path ++ text ".tmp") bytes disk).0)
          ≡ content bytes
    pub rename_moves :
        (disk : Disk)
        → (files.rename (path ++ text ".tmp") path disk).1 ≡ none
        → files.read_file path ((files.rename (path ++ text ".tmp") path disk).0)
          ≡ files.read_file (path ++ text ".tmp") disk
    pub rename_keeps :
        (disk : Disk) (e : Text)
        → (files.rename (path ++ text ".tmp") path disk).1 ≡ some e
        → files.read_file path ((files.rename (path ++ text ".tmp") path disk).0)
          ≡ files.read_file path disk

  -- JSON of an index is read back as a map with the same entries, in an order of its own.
  abbrev pub ReadsBack : JsonIndex → Type 0
  ReadsBack index =
      (files.marshal index).1 ≡ none
      → (projects : Map ProjectEntry) × (files.unmarshal ((files.marshal index).0)
          ≡ (record { version = index.version; projects = some projects }, none))
        × ((key : Text) → lookup key projects ≡ lookup key (index.projects))
