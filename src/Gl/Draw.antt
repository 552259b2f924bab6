-- ===== src/Gl/Draw.antt =====
-- `glDrawElements` of src/frameworks/opengl_sys.rs, and a program of calls.
use vulkan_cocoa_core.Common.{
  ℕ, List, [], ◌∷◌, Option, none, some, Bool, ◌==◌, not, ◌||◌, if◌then◌else◌,
}
use vulkan_cocoa_core.Machine.{Build, ok, bind}
use vulkan_cocoa_core.Gl.Types.{
  gl_triangles, gl_unsigned_int, GlBuffer, Call, cmd_bind_vertex_buffers, cmd_bind_index_buffer,
  cmd_draw_indexed, Gpu, GlState, Gl,
}
use vulkan_cocoa_core.Gl.Buffers.{
  gl_gen_buffers, gl_bind_buffer, bound_buffer, gl_buffer_data, gl_buffer_sub_data,
  gl_delete_buffers,
}

-- The three commands, where both buffers have storage.
unfoldable pub draw_with : (count offset : ℕ) → (vbo ibo : GlBuffer) → List Call → List Call
draw_with count offset vbo ibo calls =
    if vbo.buffer == 0 || ibo.buffer == 0
    then calls
    else cmd_draw_indexed count
      ∷ cmd_bind_index_buffer ibo.buffer offset
      ∷ cmd_bind_vertex_buffers vbo.buffer
      ∷ calls

unfoldable pub draw_bound : (count offset : ℕ) → (vbo ibo : Option GlBuffer) → List Call → List Call
unfolding draw_with
draw_bound count offset (some vbo) (some ibo) calls = draw_with count offset vbo ibo calls
draw_bound count offset _ _ calls = calls

unfoldable pub gl_draw_elements :
    Option Gpu → (mode count type_enum indices : ℕ) → GlState → GlState
unfolding draw_bound bound_buffer
gl_draw_elements none mode count type_enum indices s = s
gl_draw_elements (some gpu) mode count type_enum indices s =
    if count == 0 || not (mode == gl_triangles) || not (type_enum == gl_unsigned_int)
    then s
    else record s {
      calls =
          draw_bound count indices (bound_buffer s.context.bound_array_buffer s.context.buffers)
            (bound_buffer s.context.bound_element_buffer s.context.buffers) s.calls;
    }

-- A call of one of the six functions.
pub data Command : Type 0 where
  gen_buffers : (n : ℕ) → (is_null : Bool) → Command
  bind_buffer : (target buffer : ℕ) → Command
  buffer_data : (target size : ℕ) → Option (List ℕ) → Command
  buffer_sub_data : (target offset size : ℕ) → Option (List ℕ) → Command
  delete_buffers : Option (List ℕ) → Command
  draw_elements : (mode count type_enum indices : ℕ) → Command

unfoldable pub run : Build → Option Gpu → Command → GlState → Gl GlState
unfolding gl_gen_buffers gl_bind_buffer gl_buffer_data gl_buffer_sub_data gl_delete_buffers
    gl_draw_elements
run b gpu (gen_buffers n is_null) s = bind (gl_gen_buffers b gpu n is_null s) λ (ids, s'). ok s'
run b gpu (bind_buffer target buffer) s =
    ok (record s { context = gl_bind_buffer target buffer s.context })
run b gpu (buffer_data target size data_) s = gl_buffer_data gpu target size data_ s
run b gpu (buffer_sub_data target offset size data_) s =
    gl_buffer_sub_data gpu target offset size data_ s
run b gpu (delete_buffers ids) s = ok (gl_delete_buffers gpu ids s)
run b gpu (draw_elements mode count type_enum indices) s =
    ok (gl_draw_elements gpu mode count type_enum indices s)

unfoldable pub run_all : Build → Option Gpu → List Command → GlState → Gl GlState
unfolding run
run_all b gpu [] s = ok s
run_all b gpu (c ∷ cs) s = bind (run b gpu c s) λ s'. run_all b gpu cs s'
