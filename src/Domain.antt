-- ===== src/Domain.antt =====
-- Managed domains.
pub mod Policy
pub mod Canonical
pub mod Listing
pub mod Creation
mod Order
mod Rows
mod Pages
mod Found
mod Tests
