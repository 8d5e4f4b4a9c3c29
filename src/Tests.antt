-- ===== src/Tests.antt =====
-- Runs of the modelled functions, and the theorems at concrete inputs.
mod Commands
mod Devices
mod Workers
mod Systems
mod Managers
mod Settings
mod Logs
mod Requests
mod Waves
mod Buzzers
mod Pitches
mod Services
mod Consoles
mod Starts
