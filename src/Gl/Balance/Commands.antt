-- ===== src/Gl/Balance/Commands.antt =====
-- The counts under each step of the functions of src/frameworks/opengl_sys.rs.
use vulkan_cocoa_core.Common.{
  ℕ, zero, suc, ◌+◌, ◌<◌, ◌≡◌, ◌^◌, refl, List, [], ◌∷◌, Option, none, some, ◌==◌, ltb, arith,
  Bool-cases, Option-cases, inl, inr,
}
use vulkan_cocoa_core.Machine.{checked, u32_add}
use vulkan_cocoa_core.Machine.Certain.{Certain, sure, panics, Certain-if, Certain-bind}
use vulkan_cocoa_core.Device.Driver.{Answer, answer, failed}
use vulkan_cocoa_core.Gl.Types.{
  GlBuffer, null_buffer, GlContext, Usage, Call, create_buffer, allocate_memory, Gpu, GlState,
  unwrap, get, insert, bind_buffer_memory,
}
use vulkan_cocoa_core.Gl.Buffers.{
  gen_loop, gl_bind_buffer, bound_buffer, release, find_memory_type, upload, upload_some,
  replace_buffer, delete_one, delete_loop,
}
use vulkan_cocoa_core.Gl.Draw.{draw_with, draw_bound}
use vulkan_cocoa_core.Gl.Balance.{
  created, destroyed, allocated, freed, storage, Balanced, occupied-insert-some, occupied-remove,
  occupied-insert_null, Below-insert, Below-mono, Below-remove, get-lt,
}

-- `cs'` has the counts of `cs`.
pub record Quiet (cs cs' : List Call) : Type 0 where
  created : created cs' ≡ created cs
  destroyed : destroyed cs' ≡ destroyed cs
  allocated : allocated cs' ≡ allocated cs
  freed : freed cs' ≡ freed cs

-- `cs'` releases `buf` besides.
record Released (buf : GlBuffer) (cs cs' : List Call) : Type 0 where
  created : created cs' ≡ created cs
  destroyed : destroyed cs' ≡ destroyed cs + storage buf
  allocated : allocated cs' ≡ allocated cs
  freed : freed cs' ≡ freed cs + storage buf

release-Released : (buf : GlBuffer) (cs : List Call) → Released buf cs (release buf cs)
unfolding release storage created destroyed allocated freed
release-Released buf cs = elim (Bool-cases (buf.buffer == 0)) [
  | inl e ↦ record {
    created = ground (arith, e);
    destroyed = ground (arith, e);
    allocated = ground (arith, e);
    freed = ground (arith, e);
  }
  | inr e ↦ record {
    created = ground (arith, e);
    destroyed = ground (arith, e);
    allocated = ground (arith, e);
    freed = ground (arith, e);
  }
]

-- The driver never gives the null handle for a buffer.
abbrev pub NonNull : Gpu → Type 0
NonNull gpu =
    (calls : List Call) (size : ℕ) (usage : Usage) (h : ℕ)
    → gpu.new_buffer calls size usage ≡ answer h
    → 0 < h

unwrap-answer :
    {A : Type 0} (a : Answer A) → Certain {E = ⊥} (λ _. Unit {0}) (λ x. a ≡ answer x) (unwrap a)
unfolding unwrap
unwrap-answer (answer a) = sure refl
unwrap-answer (failed e) = panics tt

pub upload-Quiet :
    (gpu : Gpu) (memory offset size : ℕ) (bytes : List ℕ) (cs : List Call)
    → Certain {E = ⊥} (λ _. Unit {0}) (Quiet cs) (upload gpu memory offset size bytes cs)
unfolding upload created destroyed allocated freed
upload-Quiet gpu memory offset size bytes cs =
    Certain-bind (unwrap-answer (gpu.map_memory memory offset size))
      λ _ _. sure (record { created = refl; destroyed = refl; allocated = refl; freed = refl })

upload_some-Quiet :
    (gpu : Gpu) (memory size : ℕ) (data_ : Option (List ℕ)) (cs : List Call)
    → Certain {E = ⊥} (λ _. Unit {0}) (Quiet cs) (upload_some gpu memory size data_ cs)
unfolding upload_some
upload_some-Quiet gpu memory size none cs =
    sure (record { created = refl; destroyed = refl; allocated = refl; freed = refl })
upload_some-Quiet gpu memory size (some bytes) cs = upload-Quiet gpu memory 0 size bytes cs

-- A buffer that is bound is one of the context.
pub bound-get :
    (id : ℕ) (m : List (ℕ × GlBuffer)) {buf : GlBuffer}
    → bound_buffer id m ≡ some buf
    → get id m ≡ some buf
unfolding bound_buffer
bound-get id m e = elim (Bool-cases (id == 0)) [ inl z ↦ cc (rw z at e) | inr nz ↦ rw nz at e ]

pub Quiet-Balanced :
    {s : GlState} {cs : List Call}
    → Balanced s
    → Quiet s.calls cs
    → Balanced (record s { calls = cs })
Quiet-Balanced is q = record {
  buffers = omega (arith, is.buffers, q.created, q.destroyed);
  memories = omega (arith, is.memories, q.allocated, q.freed);
  ids = is.ids;
}

storage_one : (buf : GlBuffer) → 0 < buf.buffer → storage buf ≡ 1
unfolding storage
storage_one buf h = ground (arith, h)

pub replace-Balanced :
    (gpu : Gpu) (usage : Usage) (size : ℕ) (data_ : Option (List ℕ)) (id : ℕ) {old : GlBuffer}
    (s : GlState)
    → NonNull gpu
    → get id s.context.buffers ≡ some old
    → Balanced s
    → Certain {E = ⊥} (λ _. Unit {0}) Balanced (replace_buffer gpu usage size data_ id old s)
unfolding replace_buffer created destroyed allocated freed
replace-Balanced gpu usage size data_ id {old} s non_null e is =
    let rel = release-Released old s.calls in
    Certain-bind (unwrap-answer (gpu.new_buffer (release old s.calls) size usage)) λ buffer made.
      let calls₂ = create_buffer size usage buffer ∷ release old s.calls in
      let reqs = gpu.requirements buffer in
      let t = find_memory_type reqs.memory_type_bits 0 gpu.host_coherent in
      Certain-bind (unwrap-answer (gpu.new_memory calls₂ reqs.size t)) λ memory _.
        Certain-bind (unwrap-answer (gpu.bind_memory buffer memory)) λ _ _.
          Certain-bind
            (upload_some-Quiet gpu memory size data_
              (bind_buffer_memory buffer memory ∷ allocate_memory reqs.size t memory ∷ calls₂))
            λ calls q.
              let buf : GlBuffer = record { buffer = buffer; memory = memory; size = size } in
              let one = storage_one buf (non_null _ size usage buffer made) in
              let count = occupied-insert-some id buf s.context.buffers e in
              sure (record {
                buffers = omega (
                  arith, one, count, is.buffers, q.created, q.destroyed, rel.created, rel.destroyed,
                );
                memories = omega (
                  arith, one, count, is.memories, q.allocated, q.freed, rel.allocated, rel.freed,
                );
                ids =
                    Below-insert s.context.next_id id buf s.context.buffers
                      (get-lt _ id s.context.buffers is.ids e) is.ids;
              })

pub gen_loop-Balanced :
    (n : ℕ) (s : GlState)
    → Balanced s
    → Certain {E = ⊥}
        (λ _. Unit {0})
        (λ (ids, ctx). Balanced (record s { context = ctx }))
        (gen_loop checked n s.context)
unfolding gen_loop u32_add
gen_loop-Balanced zero s is = sure is
gen_loop-Balanced (suc n) s is =
    let ctx = s.context in
    Certain-bind
      (Certain-if {P = λ v. v ≡ ctx.next_id + 1} (ltb (ctx.next_id + 1) (2 ^ 32)) (λ _. sure refl)
        (λ _. panics tt))
      λ next e.
        let ctx' : GlContext = record ctx {
          next_id = next;
          buffers = insert ctx.next_id null_buffer ctx.buffers;
        } in
        let same = occupied-insert_null ctx.next_id ctx.buffers is.ids in
        let is' : Balanced (record s { context = ctx' }) = record {
          buffers = omega (arith, same, is.buffers);
          memories = omega (arith, same, is.memories);
          ids =
              Below-insert next ctx.next_id null_buffer ctx.buffers (omega (arith, e))
                (Below-mono ctx.next_id next ctx.buffers (omega (arith, e)) is.ids);
        } in
        Certain-bind (gen_loop-Balanced n (record s { context = ctx' }) is')
          λ (ids, ctx'') h. sure h

delete_one-Balanced : (id : ℕ) (s : GlState) → Balanced s → Balanced (delete_one id s)
unfolding delete_one
delete_one-Balanced id s is = elim (Option-cases (get id s.context.buffers)) [
  | inl e ↦ rw (e, delete_one) is
  | inr (buf, e) ↦
      let rel = release-Released buf s.calls in
      let count = occupied-remove id s.context.buffers e in
      rw (e, delete_one)
        (record {
          buffers = omega (arith, count, is.buffers, rel.created, rel.destroyed);
          memories = omega (arith, count, is.memories, rel.allocated, rel.freed);
          ids = Below-remove s.context.next_id id s.context.buffers is.ids;
        })
]

pub delete_loop-Balanced : (ids : List ℕ) (s : GlState) → Balanced s → Balanced (delete_loop ids s)
unfolding delete_loop
delete_loop-Balanced [] s is = is
delete_loop-Balanced (id ∷ ids) s is =
    delete_loop-Balanced ids (delete_one id s) (delete_one-Balanced id s is)

pub bind_buffer-Balanced :
    (target buffer : ℕ) (s : GlState)
    → Balanced s
    → Balanced (record s { context = gl_bind_buffer target buffer s.context })
unfolding gl_bind_buffer
bind_buffer-Balanced target buffer s is = record {
  buffers = ground (arith, is.buffers);
  memories = ground (arith, is.memories);
  ids = ground (arith, is.ids);
}

pub draw-Quiet :
    (count offset : ℕ) (vbo ibo : Option GlBuffer) (cs : List Call)
    → Quiet cs (draw_bound count offset vbo ibo cs)
unfolding draw_bound draw_with created destroyed allocated freed
draw-Quiet count offset none ibo cs = record {
  created = refl;
  destroyed = refl;
  allocated = refl;
  freed = refl;
}
draw-Quiet count offset (some vbo) none cs = record {
  created = refl;
  destroyed = refl;
  allocated = refl;
  freed = refl;
}
draw-Quiet count offset (some vbo) (some ibo) cs = record {
  created = ground arith;
  destroyed = ground arith;
  allocated = ground arith;
  freed = ground arith;
}
