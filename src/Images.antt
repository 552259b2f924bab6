-- ===== src/Images.antt =====
-- src/vulkan_backend/resource.rs: images on the device, of its own memory or of a surface that
-- another process shares.
pub mod Gpu
pub mod Memory
pub mod Image
pub mod Tests
