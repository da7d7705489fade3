-- ===== src/Layout.antt =====
-- src/layout/services/layout-write.service.ts: `Plan` is the plan that the layout of an event starts
-- from, `Cleanup` its deletion, and `Geometry` the changes of places with their undo and redo.
pub mod Plan
pub mod Cleanup
pub mod Geometry
