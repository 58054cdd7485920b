-- ===== src/Agent.antt =====
-- agent_graph.py: one agent as a graph of nodes. A model chooses tools; the graph runs them, and
-- stops for the user before every write.
pub mod State
pub mod Policy
pub mod Model
pub mod Read
pub mod Writes
pub mod Graph
pub mod Api
pub mod Refresh
mod Tests
