-- ===== src/Tests.antt =====
-- Runs on concrete data, and the theorems at inputs that meet their hypotheses.
mod Launches
mod Flaky
mod Retrying
mod Desk
mod Passes
mod Leftovers
mod Providers
mod Services
mod Settings
mod Nudges
mod Channels
mod Meters
mod Disks
mod Pages
mod Requests
mod Accounts
mod Processes
