-- ===== src/Auth.antt =====
-- crates/accord-server/src/auth: accounts, sessions, devices and invites.
pub mod Crypto
pub mod Limits
pub mod Hex
pub mod Register
pub mod Session
pub mod Devices
pub mod Registration
pub mod Accounts
mod Tests
pub mod Brake
pub mod Tokens
pub mod Rotation
pub mod Joining
pub mod Issuing
pub mod Login
