-- ===== src/Planner.antt =====
-- The resolver's planner, resolver/src/planner: Fill is the dry-run fill plan of index.ts, Drift the
-- test of a plan against the canonical order in validate.ts.
pub mod Drift
pub mod Fill
