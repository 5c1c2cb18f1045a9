-- ===== src/Ipc.antt =====
-- The shared data of the daemon (pkg/ipc).
pub mod Float
pub mod Types
pub mod Cache
pub mod Appearance
pub mod Keybinds
pub mod Config
pub mod Errors
pub mod Compositor
pub mod Mock
pub mod Niri
pub mod Hyprland
mod Tests
mod ClientTests
