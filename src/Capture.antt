-- ===== src/Capture.antt =====
-- The capture format: how events, processes, handles and executables are written to a capture file and
-- read back.
pub mod Bytes
pub mod Maps
pub mod Sections
pub mod Times
pub mod Handles
pub mod Processes
pub mod Executables
pub mod ParamTypes
pub mod Events
