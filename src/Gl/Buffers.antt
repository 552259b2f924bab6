-- ===== src/Gl/Buffers.antt =====
-- The buffer functions of src/frameworks/opengl_sys.rs. A count or size that is negative does what 0
-- does, so both are natural numbers; a pointer is `none` where it is null, and else what it points
-- at. Without a shared device the functions do nothing.
use vulkan_cocoa_core.Common.{
  ℕ, zero, suc, ◌+◌, ◌^◌, List, [], ◌∷◌, Option, none, some, Bool, ◌==◌, not, ◌&&◌, bit_and, take,
  if◌then◌else◌,
}
use vulkan_cocoa_core.Machine.{Build, ok, bind, u32_add}
use vulkan_cocoa_core.Gl.Types.{
  gl_array_buffer, gl_element_array_buffer, GlBuffer, null_buffer, GlContext, Usage, vertex_buffer,
  index_buffer, Call, create_buffer, destroy_buffer, allocate_memory, free_memory,
  bind_buffer_memory, write_memory, Gpu, GlState, Gl, unwrap, get, insert, remove,
}

-- The loop of `glGenBuffers`, with the ids that it writes.
unfoldable pub gen_loop : Build → ℕ → GlContext → Gl (List ℕ × GlContext)
unfolding insert
gen_loop b zero ctx = ok ([], ctx)
gen_loop b (suc n) ctx = bind (u32_add b ctx.next_id 1) λ next.
    bind
      (gen_loop b n
        (record ctx { next_id = next; buffers = insert ctx.next_id null_buffer ctx.buffers }))
      λ (ids, ctx'). ok (ctx.next_id ∷ ids, ctx')

unfoldable pub gl_gen_buffers :
    Build → Option Gpu → (n : ℕ) → (is_null : Bool) → GlState → Gl (List ℕ × GlState)
gl_gen_buffers b none n is_null s = ok ([], s)
gl_gen_buffers b (some gpu) n is_null s =
    if n == 0
    then ok ([], s)
    else if is_null
    then ok ([], s)
    else bind (gen_loop b n s.context) λ (ids, ctx). ok (ids, record s { context = ctx })

unfoldable pub gl_bind_buffer : (target buffer : ℕ) → GlContext → GlContext
gl_bind_buffer target buffer ctx =
    if target == gl_array_buffer
    then record ctx { bound_array_buffer = buffer }
    else if target == gl_element_array_buffer
    then record ctx { bound_element_buffer = buffer }
    else ctx

-- The usage and the bound id of a target.
unfoldable pub target_of : ℕ → GlContext → Option (Usage × ℕ)
target_of target ctx =
    if target == gl_array_buffer
    then some (vertex_buffer, ctx.bound_array_buffer)
    else if target == gl_element_array_buffer
    then some (index_buffer, ctx.bound_element_buffer)
    else none

-- The id's buffer; there is none under the id 0, for which the code returns before.
unfoldable pub bound_buffer : ℕ → List (ℕ × GlBuffer) → Option GlBuffer
unfolding get
bound_buffer id buffers = if id == 0 then none else get id buffers

unfoldable pub release : GlBuffer → List Call → List Call
release buf calls =
    if buf.buffer == 0 then calls else free_memory buf.memory ∷ destroy_buffer buf.buffer ∷ calls

-- The first memory type from `i` on that is allowed and coherent, or 0.
unfoldable pub find_memory_type : (bits i : ℕ) → List Bool → ℕ
find_memory_type bits i [] = 0
find_memory_type bits i (coherent ∷ types) =
    if not (bit_and bits (2 ^ i) == 0) && coherent then i else find_memory_type bits (i + 1) types

-- Map, copy and unmap.
unfoldable pub upload : Gpu → (memory offset size : ℕ) → List ℕ → List Call → Gl (List Call)
unfolding unwrap
upload gpu memory offset size bytes calls =
    bind (unwrap (gpu.map_memory memory offset size))
      λ _. ok (write_memory memory offset (take size bytes) ∷ calls)

unfoldable pub upload_some : Gpu → (memory size : ℕ) → Option (List ℕ) → List Call → Gl (List Call)
unfolding upload
upload_some gpu memory size none calls = ok calls
upload_some gpu memory size (some bytes) calls = upload gpu memory 0 size bytes calls

-- A new Vulkan buffer with its memory in place of `old`.
unfoldable pub replace_buffer :
    Gpu → Usage → (size : ℕ) → Option (List ℕ) → (id : ℕ) → (old : GlBuffer) → GlState → Gl GlState
unfolding release find_memory_type upload_some insert unwrap
replace_buffer gpu usage size data_ id old s =
    let calls₁ = release old s.calls in
    bind (unwrap (gpu.new_buffer calls₁ size usage)) λ buffer.
      let calls₂ = create_buffer size usage buffer ∷ calls₁ in
      let reqs = gpu.requirements buffer in
      let memory_type = find_memory_type reqs.memory_type_bits 0 gpu.host_coherent in
      bind (unwrap (gpu.new_memory calls₂ reqs.size memory_type)) λ memory.
        let calls₃ = allocate_memory reqs.size memory_type memory ∷ calls₂ in
        bind (unwrap (gpu.bind_memory buffer memory)) λ _.
          bind (upload_some gpu memory size data_ (bind_buffer_memory buffer memory ∷ calls₃))
            λ calls₄. ok (record {
              context = record s.context {
                buffers =
                    insert id (record { buffer = buffer; memory = memory; size = size })
                      s.context.buffers;
              };
              calls = calls₄;
            })

unfoldable pub gl_buffer_data :
    Option Gpu → (target size : ℕ) → Option (List ℕ) → GlState → Gl GlState
unfolding target_of bound_buffer replace_buffer
gl_buffer_data none target size data_ s = ok s
gl_buffer_data (some gpu) target size data_ s =
    if size == 0 then ok s else elim (target_of target s.context) [
      | none ↦ ok s
      | some (usage, id) ↦ elim (bound_buffer id s.context.buffers) [
        | none ↦ ok s
        | some old ↦ replace_buffer gpu usage size data_ id old s
      ]
    ]

unfoldable pub write_buffer : Gpu → (offset size : ℕ) → List ℕ → GlBuffer → GlState → Gl GlState
unfolding upload
write_buffer gpu offset size bytes buf s =
    if buf.memory == 0
    then ok s
    else bind (upload gpu buf.memory offset size bytes s.calls)
        λ calls. ok (record s { calls = calls })

-- `offset` is the number that the cast to `DeviceSize` gives.
unfoldable pub gl_buffer_sub_data :
    Option Gpu → (target offset size : ℕ) → Option (List ℕ) → GlState → Gl GlState
unfolding target_of bound_buffer write_buffer
gl_buffer_sub_data none target offset size data_ s = ok s
gl_buffer_sub_data (some gpu) target offset size none s = ok s
gl_buffer_sub_data (some gpu) target offset size (some bytes) s =
    if size == 0 then ok s else elim (target_of target s.context) [
      | none ↦ ok s
      | some (usage, id) ↦ elim (bound_buffer id s.context.buffers) [
        | none ↦ ok s
        | some buf ↦ write_buffer gpu offset size bytes buf s
      ]
    ]

unfoldable pub delete_one : ℕ → GlState → GlState
unfolding get remove release
delete_one id s = elim (get id s.context.buffers) [
  | none ↦ s
  | some buf ↦ record {
    context = record s.context { buffers = remove id s.context.buffers };
    calls = release buf s.calls;
  }
]

unfoldable pub delete_loop : List ℕ → GlState → GlState
unfolding delete_one
delete_loop [] s = s
delete_loop (id ∷ ids) s = delete_loop ids (delete_one id s)

-- `ids` has the `n` ids at the pointer.
unfoldable pub gl_delete_buffers : Option Gpu → Option (List ℕ) → GlState → GlState
unfolding delete_loop
gl_delete_buffers (some gpu) (some ids) s = delete_loop ids s
gl_delete_buffers _ _ s = s
