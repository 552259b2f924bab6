-- ===== src/Gl/Balance/Program.antt =====
-- The counts under the functions of src/frameworks/opengl_sys.rs, and under a program of calls.
use vulkan_cocoa_core.Common.{
  ℕ, ◌≡◌, refl, List, [], ◌∷◌, Option, none, some, ◌==◌, not, ◌||◌, Bool-cases, inl, inr,
}
use vulkan_cocoa_core.Machine.{checked, ok}
use vulkan_cocoa_core.Machine.Certain.{Certain, sure, Certain-if, Certain-bind}
use vulkan_cocoa_core.Gl.Types.{gl_triangles, gl_unsigned_int, GlBuffer, Usage, Gpu, GlState}
use vulkan_cocoa_core.Gl.Buffers.{
  gl_gen_buffers, target_of, bound_buffer, replace_buffer, gl_buffer_data, write_buffer,
  gl_buffer_sub_data, gl_delete_buffers,
}
use vulkan_cocoa_core.Gl.Draw.{
  gl_draw_elements, Command, gen_buffers, bind_buffer, buffer_data, buffer_sub_data, delete_buffers,
  draw_elements, run, run_all,
}
use vulkan_cocoa_core.Gl.Balance.{Balanced}
use vulkan_cocoa_core.Gl.Balance.Commands.{
  NonNull, replace-Balanced, bound-get, upload-Quiet, Quiet-Balanced, gen_loop-Balanced,
  bind_buffer-Balanced, delete_loop-Balanced, draw-Quiet,
}

module _ (gpu : Gpu) (non_null : NonNull gpu) where
  buffer_data-Balanced :
      (target size : ℕ) (data_ : Option (List ℕ)) (s : GlState)
      → Balanced s
      → Certain {E = ⊥} (λ _. Unit {0}) Balanced (gl_buffer_data (some gpu) target size data_ s)
  unfolding gl_buffer_data
  buffer_data-Balanced target size data_ s is =
      Certain-if (size == 0) (λ _. sure is) λ _. on_target (target_of target s.context)
    where
      on_buffer :
          (usage : Usage) (id : ℕ) (o : Option GlBuffer)
          → bound_buffer id s.context.buffers ≡ o
          → Certain {E = ⊥}
              (λ _. Unit {0})
              Balanced
              (elim o [ none ↦ ok s | some old ↦ replace_buffer gpu usage size data_ id old s ])
      on_buffer usage id none e = sure is
      on_buffer usage id (some old) e =
          replace-Balanced gpu usage size data_ id s non_null (bound-get id s.context.buffers e) is

      on_target :
          (o : Option (Usage × ℕ))
          → Certain {E = ⊥}
              (λ _. Unit {0})
              Balanced
              (elim o [
                | none ↦ ok s
                | some (usage, id) ↦ elim (bound_buffer id s.context.buffers) [
                  | none ↦ ok s
                  | some old ↦ replace_buffer gpu usage size data_ id old s
                ]
              ])
      on_target none = sure is
      on_target (some (usage, id)) = on_buffer usage id (bound_buffer id s.context.buffers) refl

  write-Balanced :
      (offset size : ℕ) (bytes : List ℕ) (o : Option GlBuffer) (s : GlState)
      → Balanced s
      → Certain {E = ⊥}
          (λ _. Unit {0})
          Balanced
          (elim o [ none ↦ ok s | some buf ↦ write_buffer gpu offset size bytes buf s ])
  unfolding write_buffer
  write-Balanced offset size bytes none s is = sure is
  write-Balanced offset size bytes (some buf) s is =
      Certain-if (buf.memory == 0) (λ _. sure is)
        λ _.
          Certain-bind (upload-Quiet gpu buf.memory offset size bytes s.calls)
            λ calls q. sure (Quiet-Balanced is q)

  buffer_sub_data-Balanced :
      (target offset size : ℕ) (data_ : Option (List ℕ)) (s : GlState)
      → Balanced s
      → Certain {E = ⊥}
          (λ _. Unit {0})
          Balanced
          (gl_buffer_sub_data (some gpu) target offset size data_ s)
  unfolding gl_buffer_sub_data
  buffer_sub_data-Balanced target offset size none s is = sure is
  buffer_sub_data-Balanced target offset size (some bytes) s is =
      Certain-if (size == 0) (λ _. sure is) λ _. on_target (target_of target s.context)
    where
      on_target :
          (o : Option (Usage × ℕ))
          → Certain {E = ⊥}
              (λ _. Unit {0})
              Balanced
              (elim o [
                | none ↦ ok s
                | some (usage, id) ↦ elim (bound_buffer id s.context.buffers) [
                  | none ↦ ok s
                  | some buf ↦ write_buffer gpu offset size bytes buf s
                ]
              ])
      on_target none = sure is
      on_target (some (usage, id)) =
          write-Balanced offset size bytes (bound_buffer id s.context.buffers) s is

  run-Balanced :
      (c : Command) (s : GlState)
      → Balanced s
      → Certain {E = ⊥} (λ _. Unit {0}) Balanced (run checked (some gpu) c s)
  unfolding run gl_gen_buffers gl_delete_buffers gl_draw_elements
  run-Balanced (gen_buffers n is_null) s is =
      Certain-bind {Q = λ (ids, s'). Balanced s'}
        (Certain-if (n == 0) (λ _. sure is)
          λ _.
            Certain-if is_null (λ _. sure is)
              λ _. Certain-bind (gen_loop-Balanced n s is) λ (ids, ctx) h. sure h)
        λ (ids, s') h. sure h
  run-Balanced (bind_buffer target buffer) s is = sure (bind_buffer-Balanced target buffer s is)
  run-Balanced (buffer_data target size data_) s is = buffer_data-Balanced target size data_ s is
  run-Balanced (buffer_sub_data target offset size data_) s is =
      buffer_sub_data-Balanced target offset size data_ s is
  run-Balanced (delete_buffers none) s is = sure is
  run-Balanced (delete_buffers (some ids)) s is = sure (delete_loop-Balanced ids s is)
  run-Balanced (draw_elements mode count type_enum indices) s is =
      elim (Bool-cases
        (count == 0 || not (mode == gl_triangles) || not (type_enum == gl_unsigned_int))) [
          | inl e ↦ rw e (sure is)
          | inr e ↦ rw e (
              sure (
                Quiet-Balanced is (
                  draw-Quiet count indices
                    (bound_buffer s.context.bound_array_buffer s.context.buffers)
                    (bound_buffer s.context.bound_element_buffer s.context.buffers) s.calls)))
        ]

  -- In a checked build, with a device that never gives the null handle for a buffer, a program of
  -- calls from a balanced context panics or ends in a balanced one: the buffers created and not
  -- destroyed are as many as the context has with storage, and so are the memories allocated and
  -- not freed.
  pub run_all-Balanced :
      (cs : List Command) (s : GlState)
      → Balanced s
      → Certain {E = ⊥} (λ _. Unit {0}) Balanced (run_all checked (some gpu) cs s)
  unfolding run_all
  run_all-Balanced [] s is = sure is
  run_all-Balanced (c ∷ cs) s is =
      Certain-bind (run-Balanced c s is) λ s' is'. run_all-Balanced cs s' is'
