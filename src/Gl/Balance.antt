-- ===== src/Gl/Balance.antt =====
-- Counts of the Vulkan objects of src/frameworks/opengl_sys.rs: those created and destroyed by the
-- calls, and those that the context has; and what the map's operations do to them.
pub mod Commands
pub mod Program
use vulkan_cocoa_core.Common.{
  ℕ, zero, suc, ◌+◌, ◌≤◌, ◌<◌, ◌≡◌, ◌≢◌, ◌^◌, refl, sym, ap, ◌∙◌, List, [], ◌∷◌, Option, none, some,
  Bool, true, false, ◌==◌, not, ◌&&◌, ◌||◌, ltb, if◌then◌else◌, arith, Bool-cases, inl, inr,
}
use vulkan_cocoa_core.Machine.{Build, checked, ok, bind, u32_add}
use vulkan_cocoa_core.Machine.Certain.{Certain, sure, panics, Certain-if, Certain-bind}
use vulkan_cocoa_core.Device.Driver.{Answer, answer, failed}
use vulkan_cocoa_core.Gl.Types.{
  GlBuffer, null_buffer, GlContext, Usage, Call, create_buffer, destroy_buffer, allocate_memory,
  free_memory, Gpu, GlState, Gl, unwrap, get, insert, remove, new, bind_buffer_memory, write_memory,
  cmd_bind_vertex_buffers, cmd_bind_index_buffer, cmd_draw_indexed,
}
use vulkan_cocoa_core.Gl.Buffers.{
  gen_loop, gl_gen_buffers, gl_bind_buffer, target_of, bound_buffer, release, upload, upload_some,
  replace_buffer, gl_buffer_data, write_buffer, gl_buffer_sub_data, delete_one, delete_loop,
  gl_delete_buffers,
}
use vulkan_cocoa_core.Gl.Draw.{
  draw_with, draw_bound, gl_draw_elements, Command, gen_buffers, bind_buffer, buffer_data,
  buffer_sub_data, delete_buffers, draw_elements, run, run_all,
}

-- How many buffers were created, and how many destroyed.
unfoldable pub created : List Call → ℕ
created [] = 0
created (create_buffer size usage h ∷ cs) = suc (created cs)
created (_ ∷ cs) = created cs

unfoldable pub destroyed : List Call → ℕ
destroyed [] = 0
destroyed (destroy_buffer h ∷ cs) = suc (destroyed cs)
destroyed (_ ∷ cs) = destroyed cs

-- How often memory was allocated, and how often freed.
unfoldable pub allocated : List Call → ℕ
allocated [] = 0
allocated (allocate_memory size t h ∷ cs) = suc (allocated cs)
allocated (_ ∷ cs) = allocated cs

unfoldable pub freed : List Call → ℕ
freed [] = 0
freed (free_memory h ∷ cs) = suc (freed cs)
freed (_ ∷ cs) = freed cs

unfoldable pub storage : GlBuffer → ℕ
storage buf = if buf.buffer == 0 then 0 else 1

-- How many buffers have storage on the device.
unfoldable pub occupied : List (ℕ × GlBuffer) → ℕ
unfolding storage
occupied [] = 0
occupied ((k, buf) ∷ m) = storage buf + occupied m

abbrev pub Below : ℕ → List (ℕ × GlBuffer) → Type 0
Below n [] = Unit
Below n ((k, buf) ∷ m) = (k < n) × Below n m

pub record Balanced (s : GlState) : Type 0 where
  pub buffers : created s.calls ≡ destroyed s.calls + occupied s.context.buffers
  pub memories : allocated s.calls ≡ freed s.calls + occupied s.context.buffers
  pub ids : Below s.context.next_id s.context.buffers

pub occupied-insert-some :
    (id : ℕ) (buf : GlBuffer) {old : GlBuffer} (m : List (ℕ × GlBuffer))
    → get id m ≡ some old
    → occupied (insert id buf m) + storage old ≡ occupied m + storage buf
unfolding occupied insert get
occupied-insert-some id buf [] e = cc
occupied-insert-some id buf {old} ((k, x) ∷ m) e = elim (Bool-cases (k == id)) [
  | inl h ↦ rw h (omega (arith, ap storage (let s : x ≡ old = ground (arith, e, h) in s)))
  | inr h ↦ rw h (omega (arith, occupied-insert-some id buf m (rw h at e)))
]

pub occupied-remove :
    (id : ℕ) {old : GlBuffer} (m : List (ℕ × GlBuffer))
    → get id m ≡ some old
    → occupied (remove id m) + storage old ≡ occupied m
unfolding occupied remove get
occupied-remove id [] e = cc
occupied-remove id {old} ((k, x) ∷ m) e = elim (Bool-cases (k == id)) [
  | inl h ↦ rw h (omega (arith, ap storage (let s : x ≡ old = ground (arith, e, h) in s)))
  | inr h ↦ rw h (omega (arith, occupied-remove id m (rw h at e)))
]

pub occupied-insert_null :
    (n : ℕ) (m : List (ℕ × GlBuffer)) → Below n m → occupied (insert n null_buffer m) ≡ occupied m
unfolding occupied insert storage
occupied-insert_null n [] h = refl
occupied-insert_null n ((k, x) ∷ m) h = ground (arith, h.0, occupied-insert_null n m h.1)

pub Below-insert :
    (n id : ℕ) (buf : GlBuffer) (m : List (ℕ × GlBuffer))
    → id < n
    → Below n m
    → Below n (insert id buf m)
unfolding insert
Below-insert n id buf [] lt h = (lt, tt)
Below-insert n id buf ((k, x) ∷ m) lt h = elim (Bool-cases (k == id)) [
  | inl e ↦ rw e h
  | inr e ↦ rw e (h.0, Below-insert n id buf m lt h.1)
]

pub Below-mono : (n k : ℕ) (m : List (ℕ × GlBuffer)) → n ≤ k → Below n m → Below k m
Below-mono n k [] le h = tt
Below-mono n k ((j, x) ∷ m) le h = (omega (arith, h.0), Below-mono n k m le h.1)

pub Below-remove : (n id : ℕ) (m : List (ℕ × GlBuffer)) → Below n m → Below n (remove id m)
unfolding remove
Below-remove n id [] h = tt
Below-remove n id ((k, x) ∷ m) h = elim (Bool-cases (k == id)) [
  | inl e ↦ rw e h.1
  | inr e ↦ rw e (h.0, Below-remove n id m h.1)
]

pub get-lt :
    (n id : ℕ) {buf : GlBuffer} (m : List (ℕ × GlBuffer)) → Below n m → get id m ≡ some buf → id < n
unfolding get
get-lt n id [] h e = cc
get-lt n id ((k, x) ∷ m) h e = elim (Bool-cases (k == id)) [
  | inl same ↦ ground (arith, same, h.0)
  | inr other ↦ get-lt n id m h.1 (rw other at e)
]
