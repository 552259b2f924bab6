-- ===== src/Gl/Types.antt =====
-- The state of src/frameworks/opengl_sys.rs, and the Vulkan device that it calls, which is a
-- parameter: `Gpu` has a field for each call that returns something. Its answers may depend on the
-- calls so far, of which `calls` has the latest first. A handle is a number, and 0 the null handle.
use vulkan_cocoa_core.Common.{ℕ, List, [], ◌∷◌, Option, none, some, Bool, ◌==◌, if◌then◌else◌}
use vulkan_cocoa_core.Machine.{Run, ok, panic, unwrap_failed}
use vulkan_cocoa_core.Device.Driver.{Answer, answer, failed}

abbrev pub gl_array_buffer : ℕ
gl_array_buffer = 0x8892

abbrev pub gl_element_array_buffer : ℕ
gl_element_array_buffer = 0x8893

abbrev pub gl_triangles : ℕ
gl_triangles = 4

abbrev pub gl_unsigned_int : ℕ
gl_unsigned_int = 0x1405

pub record GlBuffer : Type 0 where
  pub buffer : ℕ
  pub memory : ℕ
  pub size : ℕ

abbrev pub null_buffer : GlBuffer
null_buffer = record { buffer = 0; memory = 0; size = 0 }

-- `buffers` is a `HashMap`, as an association list.
pub record GlContext : Type 0 where
  pub buffers : List (ℕ × GlBuffer)
  pub bound_array_buffer : ℕ
  pub bound_element_buffer : ℕ
  pub next_id : ℕ

unfoldable pub new : GlContext
new = record { buffers = []; bound_array_buffer = 0; bound_element_buffer = 0; next_id = 1 }

pub data Usage : Type 0 where
  vertex_buffer index_buffer : Usage

-- The calls of the device that change something, with the handles that were given.
pub data Call : Type 0 where
  create_buffer : (size : ℕ) → Usage → (handle : ℕ) → Call
  destroy_buffer : ℕ → Call
  allocate_memory : (size memory_type handle : ℕ) → Call
  free_memory : ℕ → Call
  bind_buffer_memory : (buffer memory : ℕ) → Call
  write_memory : (memory offset : ℕ) → List ℕ → Call
  cmd_bind_vertex_buffers : ℕ → Call
  cmd_bind_index_buffer : (buffer offset : ℕ) → Call
  cmd_draw_indexed : ℕ → Call

pub record Requirements : Type 0 where
  pub size : ℕ
  pub memory_type_bits : ℕ

-- `host_coherent` tells of each memory type whether it is host-visible and host-coherent.
pub record Gpu : Type 0 where
  pub new_buffer : List Call → (size : ℕ) → Usage → Answer ℕ
  pub requirements : (buffer : ℕ) → Requirements
  pub host_coherent : List Bool
  pub new_memory : List Call → (size memory_type : ℕ) → Answer ℕ
  pub bind_memory : (buffer memory : ℕ) → Answer (Unit {0})
  pub map_memory : (memory offset size : ℕ) → Answer (Unit {0})

pub record GlState : Type 0 where
  pub context : GlContext
  pub calls : List Call

-- No function here returns an error.
abbrev pub Gl : Type 0 → Type 0
Gl A = Run ⊥ A

-- `unwrap()` on a driver's answer.
unfoldable pub unwrap : {A : Type 0} → Answer A → Gl A
unwrap (answer a) = ok a
unwrap (failed e) = panic unwrap_failed

-- `HashMap::get`, `insert`, and a write through `get_mut`.
unfoldable pub get : ℕ → List (ℕ × GlBuffer) → Option GlBuffer
get id [] = none
get id ((k, buf) ∷ m) = if k == id then some buf else get id m

unfoldable pub insert : ℕ → GlBuffer → List (ℕ × GlBuffer) → List (ℕ × GlBuffer)
insert id buf [] = (id, buf) ∷ []
insert id buf ((k, old) ∷ m) = if k == id then (k, buf) ∷ m else (k, old) ∷ insert id buf m

-- `HashMap::remove`, for what stays.
unfoldable pub remove : ℕ → List (ℕ × GlBuffer) → List (ℕ × GlBuffer)
remove id [] = []
remove id ((k, buf) ∷ m) = if k == id then m else (k, buf) ∷ remove id m
