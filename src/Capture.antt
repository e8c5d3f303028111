-- ===== src/Capture.antt =====
-- The thermal capture: src/dragonsniff/capture.py.
pub mod Run
pub mod Config
pub mod Budget
pub mod Annotate
pub mod Once
pub mod Written
pub mod Replies
mod Tests
mod BudgetTests
