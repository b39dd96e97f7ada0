-- ===== src/Tests.antt =====
-- Tests and examples: the theorems at concrete inputs.
mod Dates
mod Limits
mod Access
mod Jobs
mod Sources
mod Dimensions
mod Zones
mod Landings
mod Rates
mod Prices
mod Commands
