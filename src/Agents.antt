-- ===== src/Agents.antt =====
-- backend/app/models/agent.py: the agent row and the messages of the routing engine. Columns that
-- the database fills by itself (created_at, updated_at) are left out. A UUID is only compared, so it
-- is a number; an `int` is a ℤ.
mod Message
pub mod Roles
pub use Message.*
