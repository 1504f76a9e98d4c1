-- ===== src/Tekton.antt =====
-- internal/tekton: the pipeline runs that the controller schedules, and their builder.
pub mod Types
pub mod Builder
