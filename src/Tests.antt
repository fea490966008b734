-- ===== src/Tests.antt =====
-- Runs of the model on concrete data, and the theorems at such data.
mod Data
mod Services
mod Building
mod Searching
mod Checking
mod Caching
mod Cleaning
mod Images
mod Releases
mod Hosts
mod Accounts
