-- ===== src/Server.antt =====
-- The daemon (pkg/server).
pub mod Result
pub mod ConfigState
pub mod Layouts
pub mod Broadcast
pub mod Watch
pub mod IdleMonitors
pub mod IdleInhibitors
pub mod Brightness
pub mod ConfigHandler
pub mod DarkMode
pub mod Paths
pub mod Requests
mod Tests
mod EventTests
mod IdleTests
mod RequestTests
mod InhibitorTests
mod StreamTests
mod PathTests
