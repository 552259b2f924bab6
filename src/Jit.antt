-- ===== src/Jit.antt =====
-- src/shader_jit/transforms.rs and src/shader_jit/mod.rs: bindings, and the compiler's entry.
pub mod Utf8
pub mod Transforms
pub mod Compile
pub mod Tests
