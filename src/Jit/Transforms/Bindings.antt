-- ===== src/Jit/Transforms/Bindings.antt =====
-- On the numbers that `AirTransformer` of src/shader_jit/transforms.rs gives to names.
use vulkan_cocoa_core.Common.{
  ℕ, ◌+◌, ◌≤◌, ◌<◌, ◌≡◌, refl, List, [], ◌∷◌, Bool, true, ◌||◌, ◌^◌, ◌==◌, arith, Bool-cases, inl,
  inr, Option, none, some, if◌then◌else◌, ◌↔◌, ltb,
}
use vulkan_cocoa_core.Machine.{checked, ok, u32_add}
use vulkan_cocoa_core.Machine.Ensures.{
  Ensures, holds, panics, Ensures-if, Ensures-bind, Ensures-mono, Ensures-ok,
}
use vulkan_cocoa_core.Air.Syntax.{
  BitstreamRecord, BitstreamBlock, Blocks, bitstream_block, no_blocks, blocks, AirModule,
}
use vulkan_cocoa_core.Air.Locate.{bytes_eq}
use vulkan_cocoa_core.Jit.Transforms.{
  State, BindingModifier, BindingMap, AirTransformer, default_result, names_binding, insert,
  add_binding, note_barrier, analyze_record_metadata, analyze_records, process_block_transforms,
  process_blocks, transform_module, uses_argument_buffers,
}

bytes_eq→eq : (xs ys : List ℕ) → bytes_eq xs ys ≡ true → xs ≡ ys
unfolding bytes_eq
bytes_eq→eq [] [] h = refl
bytes_eq→eq [] (y ∷ ys) h = cc
bytes_eq→eq (x ∷ xs) [] h = cc
bytes_eq→eq (x ∷ xs) (y ∷ ys) h = ground (arith, bytes_eq→eq xs ys)

bytes_eq_refl : (xs : List ℕ) → bytes_eq xs xs ≡ true
unfolding bytes_eq
bytes_eq_refl [] = refl
bytes_eq_refl (x ∷ xs) = ground (arith, bytes_eq_refl xs)

bytes_eq_iff : (xs ys : List ℕ) → (bytes_eq xs ys ≡ true) ↔ (xs ≡ ys)
bytes_eq_iff xs ys = (bytes_eq→eq xs ys, λ e. rw e (bytes_eq_refl ys))

-- `HashMap::get`
unfoldable pub get : List ℕ → BindingMap → Option BindingModifier
get k [] = none
get k ((j, v) ∷ m) = if bytes_eq j k then some v else get k m

get-insert :
    (k j : List ℕ) (v : BindingModifier) (m : BindingMap)
    → get j (insert k v m) ≡ (if bytes_eq k j then some v else get j m)
unfolding get insert
get-insert k j v [] = refl
get-insert k j v ((i, w) ∷ m) =
    ground (arith, bytes_eq_iff k j, bytes_eq_iff i k, bytes_eq_iff i j, get-insert k j v m)

-- Every number in the map is from `low` on and below the counter, and no two names share one.
pub record Numbered (low : ℕ) (s : State) : Type 0 where
  pub bounds :
      (k : List ℕ) (m : BindingModifier)
      → get k s.1.binding_map ≡ some m
      → (low ≤ m.binding) × (m.binding < s.0.binding_counter)
  pub distinct :
      (j k : List ℕ) (m n : BindingModifier)
      → get j s.1.binding_map ≡ some m
      → get k s.1.binding_map ≡ some n
      → m.binding ≡ n.binding
      → j ≡ k

u32_add-checked :
    {E : Type 0} (x y : ℕ) → Ensures (λ _. Unit {0}) (λ v. v ≡ x + y) (u32_add {E = E} checked x y)
unfolding u32_add
u32_add-checked x y = Ensures-if (ltb (x + y) (2 ^ 32)) (λ _. holds refl) (λ _. panics tt)

abbrev fresh : ℕ → BindingModifier
fresh n = record { set = 0; binding = n; is_bindless = true; is_non_uniform = true }

module _ {E : Type 0} (low : ℕ) where
  add_binding-Numbered :
      (name : List ℕ) (s : State)
      → Numbered low s
      → low ≤ s.0.binding_counter
      → Ensures
          (λ _. Unit {0})
          (λ s'. Numbered low s' × (s'.0.binding_counter ≡ s.0.binding_counter + 1))
          (add_binding {E = E} checked name s)
  unfolding add_binding
  add_binding-Numbered name s is lo = Ensures-bind (u32_add-checked s.0.binding_counter 1) λ c e.
      holds (
        record {
          bounds = λ k m g.
              ground (
                arith,
                get-insert name k (fresh s.0.binding_counter) s.1.binding_map,
                is.bounds k m,
              );
          distinct = λ j k m n g h same. ground (
            arith,
            get-insert name j (fresh s.0.binding_counter) s.1.binding_map,
            get-insert name k (fresh s.0.binding_counter) s.1.binding_map,
            is.bounds j m,
            is.bounds k n,
            is.distinct j k m n,
            bytes_eq_iff name j,
            bytes_eq_iff name k,
          );
        },
        e,
      )

-- How many records name a binding.
unfoldable pub count_names : Bool → List BitstreamRecord → ℕ
count_names has_ab [] = 0
count_names has_ab (r ∷ rs) = (if names_binding has_ab r then 1 else 0) + count_names has_ab rs

unfoldable mutual
  pub block_names : Bool → BitstreamBlock → ℕ
  block_names has_ab (bitstream_block id width records subblocks) =
      count_names has_ab records + blocks_names has_ab subblocks

  pub blocks_names : Bool → Blocks → ℕ
  blocks_names has_ab no_blocks = 0
  blocks_names has_ab (blocks x xs) = block_names has_ab x + blocks_names has_ab xs

-- From `s` on, `n` numbers were given.
abbrev Given : ℕ → State → ℕ → State → Type 0
Given low s n s' = Numbered low s' × (s'.0.binding_counter ≡ s.0.binding_counter + n)

note_barrier-Numbered :
    (low : ℕ) (r : BitstreamRecord) {s : State} → Numbered low s → Given low s 0 (note_barrier r s)
unfolding note_barrier
note_barrier-Numbered low r {s} is = elim (Bool-cases (r.code == 5 || r.code == 6)) [
  | inl h ↦ rw h (record { bounds = is.bounds; distinct = is.distinct }, omega arith)
  | inr h ↦ rw h (record { bounds = is.bounds; distinct = is.distinct }, omega arith)
]

module _ {E : Type 0} (low : ℕ) (has_ab : Bool) where
  analyze-Numbered :
      (r : BitstreamRecord) (s : State)
      → Numbered low s
      → low ≤ s.0.binding_counter
      → Ensures
          (λ _. Unit {0})
          (Given low s (if names_binding has_ab r then 1 else 0))
          (analyze_record_metadata {E = E} checked has_ab r s)
  unfolding analyze_record_metadata
  analyze-Numbered r s is lo =
      let (is', e) = note_barrier-Numbered low r is in
      elim (Bool-cases (names_binding has_ab r)) [
        | inl h ↦ rw h (
            Ensures-mono (add_binding-Numbered low r.blob (note_barrier r s) is' (omega (arith, e)))
              λ s' (is'', e'). (is'', omega (arith, e, e')))
        | inr h ↦ rw h (holds (is', e))
      ]

  analyze_records-Numbered :
      (rs : List BitstreamRecord) (s : State)
      → Numbered low s
      → low ≤ s.0.binding_counter
      → Ensures
          (λ _. Unit {0})
          (Given low s (count_names has_ab rs))
          (analyze_records {E = E} checked has_ab rs s)
  unfolding analyze_records count_names
  analyze_records-Numbered [] s is lo = holds (is, omega arith)
  analyze_records-Numbered (r ∷ rs) s is lo =
      Ensures-bind (analyze-Numbered r s is lo) λ s' (is', e).
        Ensures-mono (analyze_records-Numbered rs s' is' (omega (arith, e)))
          λ s'' (is'', e'). (is'', omega (arith, e, e'))

mutual
  unfolding process_blocks block_names

  process_block-Numbered :
      {E : Type 0} (low : ℕ) (has_ab : Bool) (x : BitstreamBlock) (s : State)
      → Numbered low s
      → low ≤ s.0.binding_counter
      → Ensures
          (λ _. Unit {0})
          (Given low s (block_names has_ab x))
          (process_block_transforms {E = E} checked has_ab x s)
  process_block-Numbered low has_ab (bitstream_block id width records subblocks) s is lo =
      Ensures-bind (analyze_records-Numbered low has_ab records s is lo) λ s' (is', e).
        Ensures-mono (process_blocks-Numbered low has_ab subblocks s' is' (omega (arith, e)))
          λ s'' (is'', e'). (is'', omega (arith, e, e'))

  process_blocks-Numbered :
      {E : Type 0} (low : ℕ) (has_ab : Bool) (xs : Blocks) (s : State)
      → Numbered low s
      → low ≤ s.0.binding_counter
      → Ensures
          (λ _. Unit {0})
          (Given low s (blocks_names has_ab xs))
          (process_blocks {E = E} checked has_ab xs s)
  process_blocks-Numbered low has_ab no_blocks s is lo = holds (is, omega arith)
  process_blocks-Numbered low has_ab (blocks x xs) s is lo =
      Ensures-bind (process_block-Numbered low has_ab x s is lo) λ s' (is', e).
        Ensures-mono (process_blocks-Numbered low has_ab xs s' is' (omega (arith, e)))
          λ s'' (is'', e'). (is'', omega (arith, e, e'))

-- In a checked build the counter grows by the number of records that name a binding, each binding
-- in the map was numbered in this call, and two names never share a number.
pub transform_module-Numbered :
    {E : Type 0} (t : AirTransformer) (air : AirModule) {s : State}
    → transform_module {E = E} checked t air ≡ ok s
    → Numbered t.binding_counter s
      × (s.0.binding_counter
          ≡ t.binding_counter
            + blocks_names (uses_argument_buffers air.detected_features) air.blocks)
unfolding transform_module get
transform_module-Numbered t air = Ensures-ok (
    process_blocks-Numbered t.binding_counter _ air.blocks (t, default_result)
      (record { bounds = λ k m g. cc; distinct = λ j k m n g h e. cc }) (omega arith))
