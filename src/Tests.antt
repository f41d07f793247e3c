-- ===== src/Tests.antt =====
-- Runs at concrete data, and the theorems at concrete arguments.
mod Data
mod Gate
mod Trail
mod Sinks
mod Core
mod Contained
mod Shared
mod Posix
mod Injected
mod Built
mod Loaded
mod Adapter
mod Release
mod Example
