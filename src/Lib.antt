-- ===== src/Lib.antt =====
-- FlashCodeGraph: the resolver that turns parsed code into a graph of symbols and relations.
--
-- The program parses source files into symbols, calls and heritage entries (a class, its parent), puts
-- the symbols in a table, resolves names against that table, and writes the relations to a graph
-- store. Strings are lists of bytes (Common/Text.antt), Go maps are association lists
-- (Common/Maps.antt), a slice read out of range or a nil result is `none`.
--
-- Files and the code that they model:
--   Model.antt        internal/model/symbol.go, parse.go, resolve.go: the records that the parts share,
--                     with the fields that a modelled operation uses
--   Graph.antt        internal/model/graph.go and two queries of internal/storage/storage.go: nodes and
--                     edges with their properties, and the graph store, which is a parameter
--   Analyzer.antt     internal/service/analyzer.go. Analyzer/Forest.antt has BuildCallForest, Roots has
--                     ClassifyRoots, Layers has BuildLayerMap, Trace has TraceProcess and traceDFS,
--                     Processes has flattenSteps, WriteProcesses and WriteEntryPoints. Calls is about
--                     the forest, Entries, Verdicts and Dead about the entry points, Visits, Reach,
--                     Complete and Traced about a trace, Order, Stored and Written about what is
--                     written.
--   EventDispatch.antt
--                     internal/core/resolver/event_dispatch.go: resolveEmitterHandler, about which
--                     Handlers says when it panics
--   Exports.antt      internal/service/index_export_propagation.go, on the table of SymbolTable.antt.
--                     Exports/Files.antt resolves imports to files, Waiters has propagateWaiters,
--                     Propagate has propagateExports. Steps and Cascade are about the waiters, Indexes
--                     and Targets about the files, Allowed and Known about whole runs.
--   Staleness.antt    internal/service/staleness.go, DetectBranch of internal/storage/branch/branch.go
--                     and readGitHeadCommit of internal/service/index_util.go. Staleness/Git.antt reads
--                     the output of git, Changes is about changed files, Failures about errors,
--                     Warnings about the warning, Heads about the commit of a branch.
--   SymbolTable.antt  internal/core/resolver/symbol_table.go: SymbolTable with Add, AddBatch and every
--                     Find function, one function each under the Go name in snake case. The theorems in
--                     SymbolTable/ compare a table with the list of the symbols that were added.
--                     Refines holds that relation and Shards what a single shard keeps.
--   Mro.antt          internal/core/resolver/mro.go: ComputeMRO, buildParentMap and c3Merge. Merge has
--                     the merge as a relation, Linear and Distinct what a merge keeps, Level one call of
--                     ComputeMRO and Hierarchy all its calls.
--   Heritage.antt     internal/core/resolver/heritage.go: buildQualifiedParentMap with its cache and
--                     FindMethodInHierarchy; Heritage/Overrides.antt has DetectOverridesAndDispatches
--                     and helperForFile, Heritage/Resolve.antt has ResolveHeritage, Heritage/Fields.antt has
--                     lookupFieldInHierarchy. Walk and NewParents bound the searches, Search and
--                     Visits say which classes they reach, Methods and Edges apply this. Bindings bounds
--                     the search for a field, Enclosing, Scans and Above say what it finds.
--                     Inherits is about the edges of a list of entries. The lookups of the symbol
--                     table and the language helpers are records of functions that these
--                     operations take.
--   Candidates.antt   internal/core/resolver/resolver.go: filterByOwnerClass, filterByFile,
--                     filterByArgCount, filterByArgTypes and the helpers on names of types; Choice is
--                     about what filterByArgTypes leaves, Hints has classifyUnresolvedCall,
--                     findClassSymbol and lastDotOutsideParens
--   Grpc.antt         internal/core/resolver/grpc_matcher.go, every function; Names puts names together
--                     and takes them apart again
--   Route.antt        internal/core/resolver/route_matcher.go: MatchRoute and FindMatchingRoutes;
--                     Route/Urls.antt has internal/core/parser/urlutil/urlutil.go. Segments cuts and joins
--                     paths, Patterns says which segments are parameters, Parts has the relation between segments, Matching whole calls.
--   Sql.antt          internal/core/parser/sqlutil/scope.go and sqlutil.go: the chain of scopes with
--                     Lookup, Set, Snapshot, RecordConditionalDiff and RestoreSnapshot; DetectQueryType,
--                     IsSQLStatement and IsSQLStub; Sql/Queries.antt has EmitQueriesFromScope and
--                     ExtractTablesFromSQL. Chain reads the scopes as one map, Kinds is about the types
--                     of statements, Emitted about the queries.
--   CrossIndex.antt   internal/storage/crossindex/model.go and json_store.go: the index over projects.
--                     CrossIndex/Disk.antt has the file system as a parameter, load and saveLocked.
--                     Saved is about saving, Matches about a lookup, Projects about a history of changes.
--   Paths.antt        internal/util/pathutil.go: DerivePackage
--
-- Bounds and fuel: a shard index is an int32, so the theorems about a table ask for at most 2^31
-- symbols, and those about the methods of a class for at most 2^24, the width of a packed index.
-- c3Merge runs on as much fuel as its sequences have elements, plus one: each round takes at least
-- one element off. ComputeMRO runs on fuel for its levels, any number of them above the rank of
-- the class. A search over parents runs on one unit for each class that it may take off its queue:
-- those that it starts with and every parent in the map, plus one. traceDFS recurs on the levels that
-- are left below the limit on the depth. propagateWaiters has one level for each entry of the map of
-- waiting names, plus one, since every level deletes an entry.
--
-- Confidences and scores are counted in hundredths. Where Go visits the keys of a map in any order, the
-- model takes the order of the list.
--
-- Not modelled: url.Parse of the package net/url, a parameter of NormalizeURL; path/filepath,
-- git, the files on disk, encoding/json and the fingerprint store, parameters of the operations
-- that call them; the table of annotations behind LookupEntryType; the messages on progress; the
-- rest of the resolver and of the services; the locks of the symbol table, since a method runs
-- as a whole; the parsers over tree-sitter trees; the graph stores and the index over projects
-- in SQLite, the command line and the MCP server, which are input and output.
pub mod Analyzer
pub mod Candidates
pub mod Common
pub mod CrossIndex
pub mod EventDispatch
pub mod Exports
pub mod Graph
pub mod Grpc
pub mod Heritage
pub mod Model
pub mod Mro
pub mod Paths
pub mod Route
pub mod Sql
pub mod Staleness
pub mod SymbolTable
