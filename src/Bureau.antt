-- ===== src/Bureau.antt =====
-- src/controllers/bureau.ts: the task board. A snapshot of Bureau's tasks is validated, its tasks are
-- put into the columns of their states, and the page is given the board with its counts.
pub mod Parse
pub mod Board
pub mod Page
mod Tests
