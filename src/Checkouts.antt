-- ===== src/Checkouts.antt =====
-- src/controllers/checkouts.ts: the inventory of checkouts. A snapshot is validated, its entries are
-- sorted with the worst retention first, and the page is given the list with its counts.
pub mod Parse
pub mod Inventory
pub mod Page
mod Tests
