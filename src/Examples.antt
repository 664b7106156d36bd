-- ===== src/Examples.antt =====
-- Runs of the model at concrete inputs, and the theorems applied there.
mod Adoption
mod Fixture
mod Permissions
mod Tokens
mod Requests
mod Flows
mod Accounts
mod Admin
mod Pages
mod Sdk
