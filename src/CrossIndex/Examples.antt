-- ===== src/CrossIndex/Examples.antt =====
-- An index of two projects and a disk that is a map from paths to contents, on which the theorems
-- about the index of projects are applied.
use mathlib.Core.Path.{◌≡◌, refl, sym, ap, subst}
use mathlib.Core.Logic.{◌↔◌}
use mathlib.Core.Option.{Option, none, some}
use mathlib.Core.List.{List, [], ◌∷◌, ◌++◌, Memᴰ}
use native.Mathlib.Omega.{arith}
use flash_code_graph.Common.Tests.{if◌then◌else◌}
use flash_code_graph.Common.Text.{Text, text, text_eq, to_lower, trim_space, has_prefix}
use flash_code_graph.Common.Lists.{All, any}
use flash_code_graph.Common.Sets.{Distinct}
use flash_code_graph.Common.Keys.{keys}
use flash_code_graph.Route.Segments.{NoByte}
use flash_code_graph.Common.Maps.{Map, lookup, insert, lookup-insert}
use flash_code_graph.CrossIndex.{
  GlobalSymbol, GlobalRoute, ProjectEntry, Dependency, new_json_store, with_project,
  without_project, project_key, lookup_symbol, match_route, match_route_by_service, route_match,
  symbol_match, role_provider, get_dependency_symbols,
}
use flash_code_graph.CrossIndex.Disk.{
  ReadResult, content, not_exist, Files, FilesLaws, ReadsBack, register_project,
}
use flash_code_graph.CrossIndex.Saved.{Persists, register_project-Persists}
use flash_code_graph.CrossIndex.Matches.{IsNamed, lookup_symbol_lem}
use flash_code_graph.CrossIndex.Projects.{
  Change, HasBranch, registered, unregistered, replay, table, replay-table, replay-WellKeyed,
  lookup_symbol-InScope,
}

abbrev pay_api : GlobalSymbol
pay_api = record {
  qualified_name = text "com.pay.PayApi";
  name = text "PayApi";
  kind = text "Interface";
  class_type = text "interface";
  node_id = text "n1";
  annotations = [];
  methods = [];
  file_path = text "PayApi.java";
}

abbrev pay_route : GlobalRoute
pay_route = record {
  method = text "post";
  path = text "pay/Query ";
  handler_name = text "PayController.query";
  handler_id = text "n2";
  framework = text "spring";
  role = role_provider;
}

abbrev pay : ProjectEntry
pay = record {
  project_path = text "/src/pay";
  branch = text "main";
  symbols = pay_api ∷ [];
  routes = pay_route ∷ [];
  updated_at = 7;
}

abbrev shop : ProjectEntry
shop = record {
  project_path = text "/src/shop";
  branch = text "main";
  symbols = [];
  routes = [];
  updated_at = 8;
}

abbrev on_pay : List Dependency
on_pay = record { path = text "/src/pay"; branch = text "main" } ∷ []

abbrev file : Text
file = text "index.json"

-- The shop was registered and taken out again, behind the payment service.
abbrev history : List Change
history = unregistered (text "/src/shop") (text "main") ∷ registered shop ∷ registered pay ∷ []

pay_found :
    lookup_symbol (text "PayApi") on_pay (replay file history) ≡ symbol_match pay pay_api ∷ []
unfolding lookup_symbol new_json_store without_project with_project any
pay_found = refl

route_found :
    match_route (text "POST") (text "/pay/query") on_pay (replay file history)
    ≡ route_match pay pay_route ∷ []
unfolding match_route new_json_store without_project with_project any to_lower trim_space has_prefix
route_found = refl

no_service :
    match_route_by_service (text "PayService") (text "dubbo") on_pay (replay file history) ≡ []
unfolding match_route_by_service new_json_store without_project with_project any
no_service = refl

dependency_symbols : get_dependency_symbols on_pay (replay file history) ≡ pay_api ∷ []
unfolding get_dependency_symbols new_json_store without_project with_project any
dependency_symbols = refl

-- Two projects with one key, where a branch has colons.
one_key : project_key (text "a") (text "b::c") ≡ project_key (text "a::b") (text "c")
unfolding project_key
one_key = refl

main_plain : NoByte b':' (text "main")
main_plain = (refl, (refl, (refl, (refl, tt))))

history_plain : All HasBranch history
history_plain = (main_plain, (main_plain, (main_plain, tt)))

history-Distinct : Distinct (keys ((replay file history).index.projects))
history-Distinct = (replay-WellKeyed file history history_plain).0

replay-table_example :
    lookup (project_key (text "/src/pay") (text "main")) ((replay file history).index.projects)
    ≡ table history (text "/src/pay") (text "main")
replay-table_example =
    replay-table file history (text "/src/pay") (text "main") history_plain main_plain

lookup_symbol-InScope_example :
    (d : Dependency) × Memᴰ d on_pay
    × (text "/src/pay" ≡ d.path)
    × (text "main" ≡ d.branch)
    × (entry : ProjectEntry) × (table history (d.path) (d.branch) ≡ some entry)
    × Memᴰ pay_api (entry.symbols)
lookup_symbol-InScope_example =
    lookup_symbol-InScope file history (text "PayApi") on_pay (symbol_match pay pay_api)
      history_plain (main_plain, tt)
      (subst (Memᴰ (symbol_match pay pay_api)) (sym pay_found) (Memᴰ.head refl))

lookup_symbol_lem_example :
    Memᴰ (symbol_match pay pay_api) (lookup_symbol (text "PayApi") on_pay (replay file history)) ↔ (
      (d : Dependency) × Memᴰ d on_pay
      × (entry : ProjectEntry) × (lookup
            (project_key (d.path) (d.branch))
            ((replay file history).index.projects)
          ≡ some entry)
      × (symbol : GlobalSymbol) × Memᴰ symbol (entry.symbols)
      × IsNamed (text "PayApi") symbol
      × (symbol_match entry symbol ≡ symbol_match pay pay_api))
lookup_symbol_lem_example =
    lookup_symbol_lem (text "PayApi") on_pay (replay file history) (symbol_match pay pay_api)
      (history-Distinct)

-- A disk as a map from paths to contents.
abbrev MapDisk : Type 0
MapDisk = Map Text

abbrev read_of : Option Text → ReadResult
read_of none = not_exist
read_of (some bytes) = content bytes

abbrev move : Option Text → Text → Text → MapDisk → MapDisk × Option Text
move none source target disk = (disk, some (text "no such file"))
move (some bytes) source target disk = (insert target bytes disk, none)

-- The JSON of this package writes and reads one index.
abbrev map_files : Files MapDisk
map_files = record {
  read_file = λ path disk. read_of (lookup path disk);
  mkdir_all = λ path disk. (disk, none);
  write_file = λ path bytes disk. (insert path bytes disk, none);
  rename = λ source target disk. move (lookup source disk) source target disk;
  dir = λ path. text ".";
  marshal = λ index. (text "pay", none);
  unmarshal = λ bytes. (
    record {
      version = 1;
      projects = some ((project_key (text "/src/pay") (text "main"), pay) ∷ []);
    },
    none,
  );
}

map_files_laws : FilesLaws map_files file
unfolding text_eq
map_files_laws = record {
  mkdir_keeps = λ disk. refl;
  write_keeps = λ bytes disk. ap read_of (lookup-insert (file ++ text ".tmp") file bytes disk);
  write_reads = λ bytes disk ends.
      ap read_of (lookup-insert (file ++ text ".tmp") (file ++ text ".tmp") bytes disk);
  rename_moves = λ disk. moved disk (lookup (file ++ text ".tmp") disk);
  rename_keeps = λ disk. kept disk (lookup (file ++ text ".tmp") disk);
}
  where
    moved :
        (disk : MapDisk) (found : Option Text)
        → (move found (file ++ text ".tmp") file disk).1 ≡ none
        → read_of (lookup file ((move found (file ++ text ".tmp") file disk).0)) ≡ read_of found
    moved disk none h = absurd (ground arith)
    moved disk (some bytes) h = ap read_of (lookup-insert file file bytes disk)

    kept :
        (disk : MapDisk) (found : Option Text) (e : Text)
        → (move found (file ++ text ".tmp") file disk).1 ≡ some e
        → read_of (lookup file ((move found (file ++ text ".tmp") file disk).0))
          ≡ read_of (lookup file disk)
    kept disk none e h = refl
    kept disk (some bytes) e h = absurd (ground arith)

reads_back : ReadsBack map_files ((with_project pay (new_json_store file)).index)
unfolding with_project new_json_store insert
reads_back h = ((project_key (text "/src/pay") (text "main"), pay) ∷ [], refl, λ key. refl)

new_path : (new_json_store file).file_path ≡ file
unfolding new_json_store
new_path = refl

register_project-Persists_example :
    (let (changed, after, err) = register_project map_files pay (new_json_store file) [] in
      Persists map_files file map_files_laws
        (λ key.
          if text_eq (project_key (text "/src/pay") (text "main")) key
          then some pay
          else lookup key ((new_json_store file).index.projects))
        []
        after
        err)
register_project-Persists_example =
    register_project-Persists map_files file map_files_laws pay (new_json_store file) [] new_path
      reads_back
