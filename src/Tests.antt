-- ===== src/Tests.antt =====
-- The theorems of the development at concrete inputs.
mod Cache
mod Serving
mod Limits
mod Settings
mod Shell
mod Machine
mod Update
mod Services
mod Pool
mod Clients
mod Download
mod Commands
mod Records
mod Menu
