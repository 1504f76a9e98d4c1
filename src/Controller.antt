-- ===== src/Controller.antt =====
-- internal/controller: the reconcilers of the manager.
pub mod Filter
pub mod Docker
pub mod Create
pub mod Run
pub mod Check
pub mod Event
mod Tests
