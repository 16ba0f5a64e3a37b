-- ===== src/Tests.antt =====
-- Concrete inputs for the theorems: stand-ins for what lies outside the repository, and runs of the
-- program on them.
mod Tools
mod Surroundings
mod Exclusion
mod Rules
mod Objects
mod Services
mod Schedule
