-- ===== src/Tickets.antt =====
-- src/activations/orcha/ticket_compiler.rs and GraphRuntime::build_child_graph: a Markdown plan of
-- tickets becomes a graph definition, and the definition a child graph of the lattice.
pub mod Sections
pub mod Body
pub mod Graph
pub mod Shape
pub mod Known
pub mod Validated
pub mod Document
pub mod Metadata
pub mod Compilable
pub mod Child
pub mod Wired
pub mod Rows
pub mod Built
pub mod Dangling
pub mod Whole
mod Samples
mod Examples
mod ChildExamples
