-- ===== src/Device.antt =====
-- src/vulkan_backend/mod.rs: the choice of a physical device and the creation of the logical one.
pub mod Driver
pub mod Queues
pub mod Select
pub mod Logical
pub mod Tests
