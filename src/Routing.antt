-- ===== src/Routing.antt =====
-- backend/app/services/task_orchestrator_service.py: choosing an agent for a task.
pub mod Scores
pub mod Actions
pub mod Select
pub mod Batch
pub mod Single
pub mod Best
pub mod Bounds
pub mod Assign
