-- ===== src/Tests.antt =====
-- Runs of the definitions at concrete inputs, and the theorems at inputs where they apply.
mod Hub
mod Store
mod Bridge
mod Devices
mod Logcat
mod Manager
mod Http
mod Listings
mod Agents
mod Transcript
mod Spawns
mod Endpoints
mod Crash
