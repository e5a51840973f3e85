-- ===== src/Examples.antt =====
-- The theorems at concrete inputs, and tests of the definitions by evaluation.
mod Data
mod Suites
mod Runs
mod Tenant
mod Members
mod Auth
mod Guards
mod Presence
mod Filter
mod Bugs
mod Invitations
mod Listing
mod Race
mod Gateway
mod Routes
mod Client
