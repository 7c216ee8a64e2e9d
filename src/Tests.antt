-- ===== src/Tests.antt =====
-- Runs of the model on small inputs, and the theorems at concrete inputs.
mod ArchiveRuns
mod FormatRuns
mod OffsetRuns
mod StreamRuns
mod SealedRuns
mod PathRuns
mod PlanRuns
mod EditorRuns
mod SignRuns
mod SanitizeRuns
mod UnpackRuns
