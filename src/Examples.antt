-- ===== src/Examples.antt =====
-- The theorems at concrete inputs, in a module for each group of components.
pub mod Orders
pub mod Events
pub mod Tickets
pub mod Shops
pub mod People
pub mod Feeds
pub mod Community
pub mod Worker
pub mod Accounts
pub mod Settings
pub mod Uploads
pub mod Nearby
pub mod Requests
