-- ===== src/Examples.antt =====
-- Concrete inputs at which the theorems apply.
mod Fills
mod Data
mod Orders
mod Announcements
mod Lifecycle
mod Money
mod Events
mod Plans
mod Relays
mod Watches
mod Snapshots
