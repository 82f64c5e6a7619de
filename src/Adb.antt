-- ===== src/Adb.antt =====
-- internal/adb: the adb wrapper, the logcat bridge and the manager of the bridges.
pub mod Logcat
pub mod Devices
pub mod Bridge
pub mod Manager
