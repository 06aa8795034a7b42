-- ===== src/Lib.antt =====
-- Verification of mneme-substrate, the Plexus RPC server of the Bayesian Linguistic Forecaster.
--
-- The program is a set of activations (src/activations) over SQLite storages, with the forecasting
-- core in src/mneme. Modelled here is the lattice, the graph engine on which orcha and the agents
-- run: tasks are nodes of a graph, coloured tokens travel along its edges, and a durable event log
-- tells clients what happened. Above it stands the ticket compiler of orcha, which turns a Markdown
-- plan into a graph definition and that into a child graph of the lattice. Of the forecasting core,
-- the rules that aggregate the responses of several trials into one are modelled, and
-- beside it the loopback, by which a tool waits for an approval. Conversations are kept in the trees
-- of arbor; a session of claudecode stands in such a tree, buffers the events of its chats and renders
-- its nodes into messages; a session of orcha runs a task by such a chat until its work validates.
--
-- Lattice follows src/activations/lattice and the calls that src/activations/orcha/graph_runtime.rs
-- makes of it:
--   Lattice/Types        types.rs: tokens, nodes, edges, statuses, events
--   Lattice/Store        storage.rs: the tables as lists of rows, one function for each statement
--   Lattice/Edit         storage.rs: create_graph, add_node, add_edge and the graph queries
--   Lattice/Engine       storage.rs: check_and_ready and advance_graph
--   Lattice/Lifecycle    storage.rs: start_graph, recovery; graph_runtime.rs: start_node and so on
--   Lattice/Stream       storage.rs: execute_stream as a state machine
--   Lattice/Service      activation.rs: the methods as requests that are served one after another
-- The other modules below Lattice hold proofs; Rows, Sound, Safety, Primitives and Requests are the
-- lemmas on which the others stand.
--
-- Tickets follows src/activations/orcha/ticket_compiler.rs, the graph definitions of
-- src/activations/orcha/types.rs, and GraphRuntime::build_child_graph of
-- src/activations/orcha/graph_runtime.rs:
--   Tickets/Sections     parse_sections, try_parse_ticket_heading
--   Tickets/Body         parse_section_body
--   Tickets/Graph        build_graph, compile_tickets
--   Tickets/Child        the node builders, depends_on, build_child_graph on Lattice/Edit
-- Shape, Known, Wired and Rows are lemmas; Validated, Document, Metadata, Compilable, Built,
-- Dangling and Whole hold the theorems. Texts are native strings, walked by their characters;
-- Base/Text has the functions of Rust's `str` that are called.
--
-- Aggregate follows src/mneme/swarm/aggregate (mod.rs, concat.rs, majority.rs, severity.rs).
-- logit_shrinkage computes with floats: it is a parameter. A panic is an error of the model's own.
-- Rules has the code. Severity, Ladder and Texts are lemmas for Highest, and Majority, Tally and
-- Winner for Elected, which hold the theorems. Base/TextOrder has the laws of the order of texts.
--
-- Loopback follows src/activations/claudecode_loopback: a tool of an agent waits for the approval of
-- a parent session.
--   Loopback/Storage     storage.rs: the table of requests and the maps in memory
--   Loopback/Methods     activation.rs: permit and wait_for_approval by rounds, respond, and the calls
--                        that are served one after another
-- Approved, Seen, Linked and Last hold the theorems. The seconds that have passed are an argument of a
-- round; the locks are never poisoned.
--
-- Arbor follows src/activations/arbor: trees of conversation nodes, kept in tables, and the references
-- of owners that keep a tree from deletion.
--   Arbor/Types          types.rs, and the tables of storage.rs as lists of rows
--   Arbor/Trees          storage.rs: creating, listing, claiming, releasing and archiving trees
--   Arbor/Nodes          storage.rs: nodes, children, paths, and whole trees
--   Arbor/Query          storage.rs: trees by their metadata
--   Arbor/Service        activation.rs: the methods, and calls that are served one after another
-- Counts, Untouched, Positive, Live and Path have the lemmas; Consistent, Sound, Archived, Deadline,
-- Roundtrip, Forest, Created and Listing hold the theorems. A transaction gives back the old storage
-- when it fails; the creation of a node runs in none. The walk of node_get_path takes fuel, one
-- unit for a node: one more than there are nodes is enough where every id was new. A reference
-- count is an integer without a bound. Nothing is purged: the archive_window of the configuration is
-- read by no code. tree_render is not modelled.
--
-- Orcha follows src/activations/orcha: sessions and agents, and the loop that runs a task until its work
-- validates.
--   Orcha/Types, States  types.rs and storage.rs: the states, and how they are written and read back
--   Orcha/Storage        storage.rs: the tables, and the sessions in memory
--   Orcha/Task           orchestrator.rs: run_orchestration_task
--   Orcha/Agents         orchestrator.rs: check_session_completion
-- Verdict and Typed have lemmas; Restart, Outcome and Counted hold the theorems. What the agent says,
-- what the regex matches, serde reads and the shell answers, and the tree of the session are arguments
-- of a task, and its retry loop takes fuel: as many rounds as retries are allowed and one more are enough. The
-- approval of a tool, which runs beside the task, and run_agent_task are not modelled.
--
-- ClaudeCode follows src/activations/claudecode: the buffers from which clients read the events of a
-- chat that runs, and the rendering of the nodes that it wrote into messages.
--   ClaudeCode/Types     types.rs: streams, events, the events of nodes, messages
--   ClaudeCode/Streams   storage.rs: the stream_ methods, and calls that are served one after another
--   ClaudeCode/Render    storage.rs: render_messages, on Arbor/Nodes
--   ClaudeCode/SessionTable, Sessions
--                        storage.rs: the table of sessions and the session_ methods, on Arbor
--   ClaudeCode/Like      the pattern of the query by a name's beginning
-- Numbered, Buffer and Progress have lemmas on a buffer, Named, Renamed and Preserved on the table;
-- Conversation describes a log in turns; Delivered, Rendered and Found hold the theorems. The counters of a stream are u64 and wrap. What serde reads the text
-- of a node to is an argument, and the fuel of a rendering is that of node_get_path. The tables of
-- messages and of unknown events are not modelled.
--
-- Conventions. Code that changes the storage is an action: a function from the store to a result
-- and a store. A `?` ends it early, and what was written stays written. A statement fails only by a
-- primary or foreign key; failures of the disk are not modelled. Identifiers are strings that the
-- code only compares: they are numbers here, and a generated UUID is an argument. The clock is a
-- field of the store that changes between requests and not within one. JSON is a data type, and
-- storing a value and reading it back is taken to give the same value. i64 and u64 counters are
-- natural numbers without a bound, but for those of a stream. Requests are served one at a time: interleavings of the awaits
-- inside two requests are not modelled.
--
-- Fuel. The loop of advance_graph takes fuel, one unit for a round; `out_of_fuel` is the model's own
-- error. A round puts only Gather nodes behind the one that it serves, so what is enough is found by
-- recursion on a height that falls along every edge between two Gathers. On a cycle of Gathers there
-- is no such height, and the program itself does not stop. The decimal of a number and the loops
-- over lists need no fuel but the number and the list.
--
-- Not modelled: the drivers of external agents, transports, floating-point numerics, and the rendering
-- of trees as text.
pub mod Orcha
pub mod ClaudeCode
pub mod Arbor
pub mod Base
pub mod Aggregate
pub mod Tickets
pub mod Lattice
pub mod Loopback
