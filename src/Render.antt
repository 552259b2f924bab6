-- ===== src/Render.antt =====
-- src/vulkan_backend/state_machine.rs: the swapchain of a window.
pub mod Display
pub mod Choose
pub mod Objects
pub mod Context
pub mod Frame
pub mod Swapchain
pub mod Resize
pub mod Tests
