-- ===== src/Lib.antt =====
-- Change Saga.
--
-- A Saga is a document of sections, fragments and landmarks that explains a change of source code.
-- Each of them may carry evidence: files of diff URIs, which select lines or events ("atoms") of the
-- comparison that the document is about. The program checks that the evidence covers the comparison,
-- and that the resources of a living Saga name each other by canonical URNs.
--
-- The parts and their files:
--
-- * Prelude, with Prelude/Tests, Prelude/Lists, Prelude/Strings, Prelude/Sets, Prelude/Maps,
--   Prelude/Sorting and Prelude/Results: the library names the modules share, tests on native numbers,
--   lists, texts as lists of byte codes, sets of texts, maps by text, sorting, and results for
--   functions that return an error.
-- * LivingId models internal/livingid/urn.go: `build` is Build, and LivingId/Parse has Parse, with
--   `parse_top_level` and `parse_nested`. Kinds are a data type whose case `other` keeps a text that is
--   no kind. LivingId/Shape, Spelled and RoundTrip prove the round trip; LivingId/Urns has the
--   functions that build the URN of one kind (Story, Criterion and so on).
-- * SagaRef/Target models internal/sagaref/target.go: `parse_target` is ParseTarget and `urn` is
--   Target.URN. SagaRef/Target/RoundTrip has the proofs. It uses LivingId's identifiers.
-- * DiffUri models internal/diffuri/diffuri.go: Reference and Matches, and the interface `UriParser`,
--   which is what coverage uses of Parse. DiffUri/Urls has what the package takes from Go's library: the
--   parsers and printers of URLs and queries, path.Clean, letter case and number conversion are the
--   fields of a record `Library`, of which a theorem asks a law only where it names `IsLawful`; the name
--   and the port of a host are written out, and Urls/Hosts is on them. DiffUri/Repository is
--   CanonicalRepository, with Repository/Stable on its fixed points. DiffUri/LocalFiles has
--   FileRepository and RepositoryFilePath over a record `System`; LocalFiles/RoundTrip is their proof,
--   and a nil URL that is read gives `none`. DiffUri/Validate has Validate and validatePath,
--   DiffUri/Parse has Build and Parse; Parse/Canonical fills the interface, and Parse/Repositories is on
--   the spellings of a repository.
-- * GitDiff models a part of internal/gitdiff/gitdiff.go. It has the records; GitDiff/Paths is Key,
--   IsSagaPath and the paths of a patch's headers; GitDiff/Parse is the loop of parse, as a step
--   on the variables of the loop for each kind of line, over the lines that the scanner returns;
--   Parse/Keys is the invariant of the loop. GitDiff/TypeChanges is coalesceTypeChanges and the whole
--   of parse, GitDiff/ChangeSets is changeSetFromPatch, and GitDiff/Catalog the reader of numstat
--   records; TypeChanges/Unique, ChangeSets/Split and Catalog/Printed and Catalog/RoundTrip
--   are their proofs.
-- * Saga has the records of internal/saga/model.go, as far as coverage reads them.
-- * Coverage models internal/coverage/coverage.go. Coverage/Index is the index of the atoms
--   (buildIndex, lineCandidates), whose buckets are sorted when they are first asked for; the order of
--   the sort is kept in the state that the passes hand on. Coverage/Visit is the walk over the
--   evidence (walkDocumentDiffs, visitDiffs, visitDiffsSummary), and Coverage/Report the reports
--   (Evaluate, SelectTarget), with EvaluateSummary in Report/Rollup. The other child modules hold the
--   proofs:
--   Index/Sorting, Index/Buckets, Index/Candidates and Index/Build of the index, Visit/Owners and
--   Visit/Observe of a pass, Report/Evaluate, Report/Complete, Report/Distinct and Report/Agree of the
--   reports.
-- * WorkPlan models internal/workplan. WorkPlan/Records has the records of model.go.
--   WorkPlan/Graph is graphCycle of validate.go, the cycle search of revision and event graphs;
--   Graph/Paths, Graph/Verdict, Graph/Fuel and Graph/Cycle prove its verdict. WorkPlan/Nodes is
--   validateRevisionGraph and validateEventGraph with the heads they return, which eventHeads of
--   mutation.go computes again; Nodes/Issues and Nodes/Accepted say what they accept.
--   WorkPlan/Readiness is readiness.go with the event heads it reads (mutation.go); its child
--   modules are Readiness/Identifiers on contractRevisionIDs and Readiness/Satisfied on
--   DependencySatisfied. A slice that would panic gives `none`. WorkPlan/Dag is the search of
--   validateDependencyDAG, with its stack, and Dag/Linked, Dag/Verdict and Dag/Decides its proofs;
--   WorkPlan/Dependencies is the function around it, with Dependencies/Edges on its graph and
--   Dependencies/Accepted on what it accepts. WorkPlan/Checks, Revisions, Items, Contracts and
--   Conditions are the validators of the records, as lists of issues, and WorkPlan/Plans is
--   validatePlan; a slice is nil or a list where a validator tells them apart, and a map of event
--   streams is run through in the order in which its keys came first. WorkPlan/Mutations is
--   mutation.go: Mutations/Transitions has the tables of states, Mutations/Events the four Record
--   functions, Mutations/Create is CreateDependency, Mutations/Waves, WorkItems and Contracts create
--   and revise the others, Mutations/Requests is mutate with the requests that load.go enters. What
--   the disk, the clock and the lock answer is a parameter, and so is what Load returns; a call
--   gives the record that it writes. Nodes/Errors and Nodes/Resolved are on streams of events,
--   Mutations/Recorded, Guards, Steps, Progress and Created on recorded events, Mutations/Acyclic on
--   dependencies, Mutations/Replay and CreateReplay on requests that are made again. WorkPlan/Urns has
--   the exported functions of urn.go. WorkPlan/Load is Load of load.go, on a tree of files: Load/Disk is
--   the tree and the reading of a record, Load/Walks and Load/Files the loops over packages, revisions
--   and events, Load/Parts and Load/Resources the four kinds of package; Load/Kept, Streams, Names,
--   Collected, Others, Validated, Root and Whole are the proofs.
-- * Readiness models internal/readiness/readiness.go: Evaluate with its axes. Readiness/Delivered is
--   the verdict on a criterion, Readiness/Axes that on the Saga.
-- * Impact models internal/impact/impact.go, which projects an incoming comparison onto the owners
--   that coverage reports for its base. Impact/Records has the records, Impact/Owners the sets of
--   owners and the direct and contextual owners of an atom, Impact/Targets the places and reports of
--   targets, Impact/Analyze is Analyze. Impact/Marks and Impact/Accounts are on its last loop,
--   Impact/Kinds on the atoms that can have owners, Impact/Summarised on the summary, Impact/Updates
--   with Accumulated on the targets, and Impact/Origins with Mentions and Sourced on where direct
--   owners come from.
-- * Tests has the runs at fixed inputs.
--
-- The loops are structural recursion over the lists that the code ranges over. The cycle searches
-- take fuel, one more than the nodes a walk can meet: each step down marks a node that had no mark. A
-- Go map is an association list, or a function where only lookups happen. Go's int is ℕ: the counts
-- are bounded by the number of atoms and of references in memory. An error is its case and the texts
-- it prints, not the printed sentence.
--
-- Not modelled: writing to the file system, git, HTTP, the command line and JSON, which the components
-- reach by libraries; DescribeAtom, which prints an atom; and the packages under internal that are not
-- named above.
pub mod Prelude
pub mod LivingId
pub mod SagaRef
pub mod DiffUri
pub mod GitDiff
pub mod Saga
pub mod Coverage
pub mod WorkPlan
pub mod Readiness
pub mod Impact
mod Tests
