-- ===== src/Tests.antt =====
-- Runs of the definitions on small inputs.
mod Planner
mod Stages
mod Drive
mod Mirror
mod Cycle
mod Disk
mod Execute
mod Recover
