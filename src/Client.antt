-- ===== src/Client.antt =====
-- crates/accord-client/src-tauri/src: the desktop client, as far as it keeps state of its own.
pub mod Records
pub mod Framing
pub mod Sealing
pub mod History
pub mod Restore
pub mod AtRest
pub mod Disk
pub mod Log
pub mod Loading
pub mod Taverns
pub mod Ports
pub mod Hosting
mod Tests
