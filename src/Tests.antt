-- ===== src/Tests.antt =====
-- Concrete inputs to which the theorems of the parts apply.
mod Operations
mod Pool
mod Profiles
mod Recurring
mod Goals
mod Categories
mod Cards
mod Expectation
mod Desktop
mod Semaphore
mod Hub
mod Calendar
mod Txns
mod Balances
mod Exclusion
mod Holdings
