-- ===== src/Air.antt =====
-- src/shader_jit/air_parser.rs: the LLVM bitstream parser.
pub mod Syntax
pub mod Reader
pub mod Abbrev
pub mod Block
pub mod Locate
pub mod Tags
pub mod Parse
pub mod Tests
