-- ===== src/Examples.antt =====
-- The theorems at concrete inputs, and runs of the definitions.
mod Rates
mod Jobs
mod Rooms
mod Usage
mod Clients
mod NetTimes
mod Names
mod Versions
mod Records
mod Configs
mod Hosts
mod Licenses
mod Shares
