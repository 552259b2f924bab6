-- ===== src/Gl.antt =====
-- src/frameworks/opengl_sys.rs: OpenGL buffers on a Vulkan device.
pub mod Types
pub mod Buffers
pub mod Draw
pub mod Balance
pub mod Tests
