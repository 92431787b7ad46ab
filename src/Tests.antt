-- ===== src/Tests.antt =====
-- Runs of the definitions on small inputs, and the theorems at these.
pub mod Samples
mod Requests
mod Addresses
mod Vaults
mod Pages
mod Panels
mod Screens
mod Searches
mod Codes
mod Vectors
pub mod Endings
pub mod Tokens
mod Reloads
mod Loads
pub mod Passkeys
mod Boards
mod Builds
