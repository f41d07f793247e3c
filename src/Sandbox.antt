-- ===== src/Sandbox.antt =====
-- asphallea/sandbox.py: what containment the host delivers, and `run`, which contains a command or
-- refuses it.
pub mod Capabilities
pub mod World
pub mod Probe
pub mod Processes
pub mod Contained
pub mod Run
pub mod Keeps
pub mod Folder
pub mod FailClosed
pub mod Denied
pub mod Results
