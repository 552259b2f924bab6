-- ===== src/Jit/Transforms/Barrier.antt =====
-- What the transformation says of control barriers, and what it leaves alone.
use vulkan_cocoa_core.Common.{ℕ, ◌≡◌, refl, ap, ◌∙◌, List, [], ◌∷◌, Bool, false, ◌||◌, ◌==◌, arith}
use mathlib.Core.Bool.{or_assoc}
use vulkan_cocoa_core.Machine.{Build, ok}
use vulkan_cocoa_core.Machine.Ensures.{
  Ensures, holds, Ensures-if, Ensures-bind, Ensures-mono, Ensures-ok, u32_add-Ensures,
}
use vulkan_cocoa_core.Air.Syntax.{
  BitstreamRecord, BitstreamBlock, Blocks, bitstream_block, no_blocks, blocks, AirModule,
}
use vulkan_cocoa_core.Jit.Transforms.{
  State, AirTransformer, names_binding, add_binding, note_barrier, analyze_record_metadata,
  analyze_records, process_block_transforms, process_blocks, transform_module, default_result,
}

abbrev pub is_barrier : BitstreamRecord → Bool
is_barrier r = r.code == 5 || r.code == 6

unfoldable pub any_barrier : List BitstreamRecord → Bool
any_barrier [] = false
any_barrier (r ∷ rs) = is_barrier r || any_barrier rs

-- A record with code 5 or 6 stands in the blocks, at any depth.
unfoldable mutual
  pub block_has_barrier : BitstreamBlock → Bool
  block_has_barrier (bitstream_block id width records subblocks) =
      any_barrier records || blocks_have_barrier subblocks

  pub blocks_have_barrier : Blocks → Bool
  blocks_have_barrier no_blocks = false
  blocks_have_barrier (blocks x xs) = block_has_barrier x || blocks_have_barrier xs

-- The flag is raised by `found` and else kept, and the patches stay.
pub record Noted (found : Bool) (s s' : State) : Type 0 where
  pub flag : s'.1.requires_control_barrier_fix ≡ (s.1.requires_control_barrier_fix || found)
  pub patches : s'.1.transformed_spirv_patches ≡ s.1.transformed_spirv_patches

Noted-trans : {f g : Bool} {s t u : State} → Noted f s t → Noted g t u → Noted (f || g) s u
Noted-trans {f} {g} {s} n m = record {
  flag =
      m.flag ∙ (ap (λ (x : Bool). x || g) n.flag ∙ or_assoc s.1.requires_control_barrier_fix f g);
  patches = m.patches ∙ n.patches;
}

Noted-refl : (s : State) → Noted false s s
Noted-refl s = record { flag = ground arith; patches = refl }

note_barrier-Noted : (r : BitstreamRecord) (s : State) → Noted (is_barrier r) s (note_barrier r s)
unfolding note_barrier
note_barrier-Noted r s = record { flag = ground arith; patches = ground arith }

module _ {E : Type 0} (b : Build) where
  add_binding-keeps :
      (name : List ℕ) (s : State)
      → Ensures
          (λ _. Unit {0})
          (λ s'.
            (s'.1.requires_control_barrier_fix ≡ s.1.requires_control_barrier_fix)
            × (s'.1.transformed_spirv_patches ≡ s.1.transformed_spirv_patches))
          (add_binding {E = E} b name s)
  unfolding add_binding
  add_binding-keeps name s = Ensures-bind (u32_add-Ensures b _ _ tt) λ c _. holds (refl, refl)

module _ {E : Type 0} (b : Build) (has_ab : Bool) where
  analyze-Noted :
      (r : BitstreamRecord) (s : State)
      → Ensures
          (λ _. Unit {0})
          (Noted (is_barrier r) s)
          (analyze_record_metadata {E = E} b has_ab r s)
  unfolding analyze_record_metadata
  analyze-Noted r s =
      let noted = note_barrier-Noted r s in
      Ensures-if (names_binding has_ab r)
        (λ _.
          Ensures-mono (add_binding-keeps b r.blob (note_barrier r s))
            λ s' (f, p). record { flag = f ∙ noted.flag; patches = p ∙ noted.patches })
        (λ _. holds noted)

  analyze_records-Noted :
      (rs : List BitstreamRecord) (s : State)
      → Ensures (λ _. Unit {0}) (Noted (any_barrier rs) s) (analyze_records {E = E} b has_ab rs s)
  unfolding analyze_records any_barrier
  analyze_records-Noted [] s = holds (Noted-refl s)
  analyze_records-Noted (r ∷ rs) s =
      Ensures-bind (analyze-Noted r s)
        λ s' n. Ensures-mono (analyze_records-Noted rs s') λ s'' m. Noted-trans n m

mutual
  unfolding process_blocks block_has_barrier

  process_block-Noted :
      {E : Type 0} (b : Build) (has_ab : Bool) (x : BitstreamBlock) (s : State)
      → Ensures
          (λ _. Unit {0})
          (Noted (block_has_barrier x) s)
          (process_block_transforms {E = E} b has_ab x s)
  process_block-Noted b has_ab (bitstream_block id width records subblocks) s =
      Ensures-bind (analyze_records-Noted b has_ab records s)
        λ s' n. Ensures-mono (process_blocks-Noted b has_ab subblocks s') λ s'' m. Noted-trans n m

  process_blocks-Noted :
      {E : Type 0} (b : Build) (has_ab : Bool) (xs : Blocks) (s : State)
      → Ensures
          (λ _. Unit {0})
          (Noted (blocks_have_barrier xs) s)
          (process_blocks {E = E} b has_ab xs s)
  process_blocks-Noted b has_ab no_blocks s = holds (Noted-refl s)
  process_blocks-Noted b has_ab (blocks x xs) s =
      Ensures-bind (process_block-Noted b has_ab x s)
        λ s' n. Ensures-mono (process_blocks-Noted b has_ab xs s') λ s'' m. Noted-trans n m

pub transform-Noted :
    {E : Type 0} (b : Build) (t : AirTransformer) (air : AirModule)
    → Ensures
        (λ _. Unit {0})
        (Noted (blocks_have_barrier air.blocks) (t, default_result))
        (transform_module {E = E} b t air)
unfolding transform_module
transform-Noted b t air = process_blocks-Noted b _ air.blocks (t, default_result)

-- The control barrier fix is asked for exactly when a record of code 5 or 6 stands somewhere in the
-- module, at any depth of its blocks.
pub transform_module-barrier :
    {E : Type 0} (b : Build) (t : AirTransformer) (air : AirModule) {s : State}
    → transform_module {E = E} b t air ≡ ok s
    → s.1.requires_control_barrier_fix ≡ blocks_have_barrier air.blocks
transform_module-barrier b t air e = (Ensures-ok (transform-Noted b t air) e).flag
