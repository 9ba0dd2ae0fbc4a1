-- ===== src/Lib.antt =====
-- Five parts of this repository: the flow engine (core/flowengine), in which flows of nodes and
-- edges run over a shared context; the traces of its runs (core/trace); the workflow engine
-- (internal/flowengine), which runs graphs without cycles in rounds of nodes that are ready; the
-- input schemas of tools (internal/agentruntime/domain); and the knowledge service
-- (internal/knowledge), which cuts documents into chunks, keeps them by tenant and knowledge base,
-- and searches them.
--
-- Common holds what the other modules share: Go results (a value, an error or a panic), tests on
-- numbers, lists, text and association lists. Maps with one writer are association lists; a `set` is
-- the list of its members.
--
-- Engine follows the package core/flowengine, one module per part:
--   Values     the Go values of type `any`, and the errors of the package
--   Heap       maps. A Go map is a reference, and a nested map can be shared by the flow input, the
--              variables and the output of a node, so maps live in a heap of numbered cells. A write
--              to the nil map is a panic.
--   Paths      splitPath and splitFieldPath (core/flowengine/context.go)
--   Context    DataContext: NewDataContext, Read, Write, ReadNodeContext, WriteNodeContext
--   Spec       the records of a flow (core/flowengine/types.go)
--   Mapping    ResolveValue, BuildNodeInput, ApplyContextWrites (core/flowengine/mapping.go)
--   Registry   node executors by type (core/flowengine/registry.go)
--   Graph      indexNodes, outgoingEdges, sourceNodes (core/flowengine/executor.go)
--   Trace      trace identity (core/runtimecontext/trace.go)
--   Event      flow events and the trace each carries (core/flowengine/event.go, executor.go)
--   Executor   validate and Execute (core/flowengine/executor.go): `start_env` and `start_state` are
--              what Execute does before its loop, `round` is one round of the loop, `visit` is its
--              body for a node that was not executed
--   Conditions the rules of condition nodes: comparison, containment and emptiness of values
--              (core/flowengine/control_nodes.go)
--   Control    branches of condition nodes, and the control node executors (the same file)
--   Instance   the durable state of a flow execution (core/flowengine/instance.go)
--   Stateful   the stateful executor (core/flowengine/stateful_executor.go) over an instance store
--              (core/flowengine/store.go): Base has the state its methods share, Token is
--              executeReadyToken and what it calls, Run is Start and RunUntilBlocked, Resume is
--              Resume, Store is the interface and the memory store
--
-- The executor calls node executors through the registry, mappings and context writes around each
-- call, and emits events; the stateful executor does the same for one token at a time and saves the
-- instance after each. Child modules named for what they prove hold the lemmas.
--
-- A node executor is a function from its request and the heap to a result and a heap; what it reads
-- from outside is the field `outside` of the heap, so two calls may differ. It may write any map it
-- can reach.
--
-- Platform has the errors and ids that the services share (internal/platform/kernel).
--
-- Knowledge follows internal/knowledge:
--   Types      the records (internal/platform/contracts/knowledge/knowledge.go)
--   Query      validation (domain/query.go)
--   Chunker    ChunkDocument (domain/chunker.go)
--   Memory     MemoryStore (infrastructure/memory_store.go); Score has lexicalScore and queryTerms
--   Service    Service and the ports that it calls (application/service.go, ports/ports.go), each port
--              a record of functions over a stored state; `memory_service` fills them with MemoryStore
-- The service validates, cuts a document and gives the chunks to the indexer; a search goes to the
-- retriever. Maps are association lists, in whose order Go may range differently; no theorem depends
-- on it. Scores are numbers: the source adds only whole numbers to its float64.
--
-- Workflow follows internal/flowengine:
--   Values      the values of a workflow. Maps are trees: the engine copies a context before it changes
--               it, so cloneMap and cloneValue change nothing here
--   Types       the records (internal/platform/contracts/workflow/workflow.go, mapping.go)
--   Context     RunContext: NewRunContext, Read, Write, WithNodeResult, Output (context.go)
--   Mapping     buildNodeInput, applyOutputMappings (mapping.go)
--   Store       RunStore and MemoryRunStore (store.go)
--   Validation  ValidateSpec, ValidateGraph, hasCycle (validation.go)
--   State       executionState (state.go)
--   Routing     nextNodes and edgeMatches (executor.go, validation.go)
--   Executor    the registry with its two node executors, and executeNode (registry.go, executor.go)
--   Run         executeReadyNodes, executeGraph and Execute (executor.go)
-- A run schedules the entry node; each round executes ready nodes, writes their results to the context and
-- schedules the nodes after them. The record Executor holds the store, the registry and what Go leaves
-- open: `arrange` is the order in which a map is ranged over and in which goroutines finish, `new_id` and
-- `now` stand for id.New and the clock. A node executor is a function of its request and of the state of
-- the world, which holds the store.
--
-- Tracing follows core/trace:
--   Redactor   FieldRedactor (redactor.go)
--   Spans      the records (model.go) and MemoryStore (store.go)
--   Collector  OnFlowEvent (collector.go), for the events that the flow engine emits; its event record has
--              trees in place of the engine's maps, and a time stamp
--
-- Arguments is ValidateInputSchema (internal/agentruntime/domain/input_schema.go). A slice is a slice of
-- any; the text of a value and whether a float is whole are parameters.
--
-- Loops: the loops of Execute and RunUntilBlocked are recursions on fuel that give `none` when it
-- runs out. Execute needs one round for each queue entry; the fuel that it needs is shown to exist for
-- every flow. RunUntilBlocked has no limit on executions, so a cycle can run without end. The deep
-- copies of the memory store recurse to a given depth of the stack; a deeper one ends the program, as
-- a cyclic map does in Go.
--
-- ChunkDocument is a recursion on fuel too; one round for each character and one more are enough, and
-- the service gives so much. hasCycle recurses along edges, on fuel for each node and each edge; the loop
-- of executeGraph takes one round for each node and one more, and that is enough.
--
-- Not modelled: node timeouts, deadlines and cancellation; in the flow engine, time stamps; locks (each
-- call runs alone) and logging; event hooks, which are given the events in the order of the list and
-- change nothing; JSON decoding of node configurations, parsing and comparison of floating-point numbers,
-- reflect.DeepEqual and fmt.Sprint, which are parameters; strings.ToLower and the tables of package
-- unicode, which are in the records named Lexis; random ids and the clock, which are arguments;
-- reassignment of the four maps of a DataContext by a node executor; in the workflow engine, what two
-- writes of one node result do to a map that both hold, and the quotes of %q in a message.
--
-- Tests has small flows, workflows, documents, spans and schemas, runs of the model on them, and the
-- theorems applied to them.
pub mod Common
pub mod Platform
pub mod Engine
pub mod Knowledge
pub mod Workflow
pub mod Tracing
pub mod Arguments
pub mod Tests
