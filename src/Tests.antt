-- ===== src/Tests.antt =====
-- Concrete inputs, at which the theorems are applied.
mod Toy
mod Machine
mod Log
mod Jobs
mod Circuit
mod Actions
mod Decisions
mod Processes
mod MacAgent
mod WasmHost
mod Api
mod Identity
