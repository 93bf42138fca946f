-- ===== src/Tests.antt =====
-- A small machine on which the theorems' hypotheses hold, and the theorems and operations run on it.
mod Machine
mod Requests
mod Mounts
mod Staging
mod Directories
mod Controllers
mod Drivers
mod Credentials
mod Ephemeral
mod Interleavings
mod Servings
mod Calls
mod Programs
mod Engine
mod Pipelines
