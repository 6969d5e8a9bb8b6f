-- ===== src/Dag.antt =====
-- vibe_guide/dag.py: validation and scheduling of the task DAG.
pub mod Closure
pub mod Contract
pub mod Graph
pub mod Node
pub mod Ready
pub mod Scoped
mod Samples
