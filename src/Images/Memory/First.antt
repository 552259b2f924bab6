-- ===== src/Images/Memory/First.antt =====
-- `find_memory_type` against the least index that fits.
use native.Mathlib.Decide.{dec_lt}
use native.Mathlib.Nat.{mod-eq_of_lt, pow-le-pow_right}
use vulkan_cocoa_core.Common.{
  ℕ, zero, suc, ◌+◌, ◌*◌, ◌/◌, ◌%◌, ◌^◌, ◌≤◌, ◌<◌, ◌≡◌, ◌↔◌, inl, inr, refl, ap, ◌∙◌, length, arith,
  Bool, true, false, ◌&&◌, not, ◌==◌, get_elem?, get_elem?-some, some, bit_and, ==_iff, Bool-cases,
  lt→ltb, zero_or_pos, pos→ne_zero,
}
use vulkan_cocoa_core.Common.Bits.{bit_and-pow, pow_pos}
use vulkan_cocoa_core.Machine.{Build, Run, ok, err, u32_shl}
use vulkan_cocoa_core.Images.Gpu.{ResourceError, no_memory_type, MemoryProperties}
use vulkan_cocoa_core.Images.Memory.{contains, find_from, find_memory_type}

-- The type at `i` is among those that `type_bits` names, and has the properties.
pub record Suitable (m : MemoryProperties) (type_bits properties i : ℕ) : Type 0 where
  pub named : type_bits / 2 ^ i % 2 ≡ 1
  pub flags : ℕ
  pub listed : get_elem? m.memory_types i ≡ some flags
  pub has : bit_and flags properties ≡ properties

-- The first type that is suitable, or the error where there is none.
pub data Found (m : MemoryProperties) (type_bits properties : ℕ)
    : Run ResourceError ℕ → Type 0 where
  found :
      {i : ℕ}
      → i < m.memory_type_count
      → Suitable m type_bits properties i
      → ((j : ℕ) → j < i → ¬ Suitable m type_bits properties j)
      → Found m type_bits properties (ok i)
  none_found :
      ((j : ℕ) → j < m.memory_type_count → ¬ Suitable m type_bits properties j)
      → Found m type_bits properties (err (no_memory_type type_bits properties))

-- What Vulkan promises of the memory properties: the array has 32 places, of which the first
-- `memory_type_count` are used.
pub record Listed (m : MemoryProperties) : Type 0 where
  pub places : length m.memory_types ≡ 32
  pub used : m.memory_type_count ≤ 32

shl_one : {E : Type 0} (b : Build) (i : ℕ) → i < 32 → u32_shl {E = E} b 1 i ≡ ok (2 ^ i)
unfolding u32_shl
shl_one b i h =
    let p : 2 ^ i ≤ 2 ^ 31 =
      pow-le-pow_right {n = 2} (omega arith) {i = i} {j = 31} (omega arith) in
    let one : 1 * 2 ^ i ≡ 2 ^ i = omega arith in
    rw (lt→ltb i 32 h, one) (ap ok (mod-eq_of_lt (omega arith)))

-- The test of a round.
abbrev fits : (type_bits properties flags i : ℕ) → Bool
fits type_bits properties flags i =
    not (bit_and type_bits (2 ^ i) == 0) && contains flags properties

bit_and-pow_iff : (a i : ℕ) → ((bit_and a (2 ^ i) == 0) ≡ false) ↔ (a / 2 ^ i % 2 ≡ 1)
bit_and-pow_iff a i = elim (zero_or_pos (a / 2 ^ i % 2)) [
  | inl z ↦
      let none_ : bit_and a (2 ^ i) ≡ 0 = bit_and-pow i a ∙ rw z (omega arith) in
      rw none_ ((λ t. cc), λ t. absurd (omega (arith, t, z)))
  | inr p ↦
      let one : a / 2 ^ i % 2 ≡ 1 = omega arith in
      let some_ : bit_and a (2 ^ i) ≡ 2 ^ i = bit_and-pow i a ∙ rw one (omega arith) in
      rw some_ ((λ t. one), λ t. pos→ne_zero (2 ^ i) (pow_pos i))
]

both : (x y : Bool) → (not x && y) ≡ true → (x ≡ false) × (y ≡ true)
both true y e = cc
both false y e = (refl, e)

module _ (m : MemoryProperties) (type_bits properties i flags : ℕ)
    (e : get_elem? m.memory_types i ≡ some flags) where
  fits→Suitable : fits type_bits properties flags i ≡ true → Suitable m type_bits properties i
  unfolding contains
  fits→Suitable h =
      let (bit, has) = both (bit_and type_bits (2 ^ i) == 0) (contains flags properties) h in
      record {
        named = (bit_and-pow_iff type_bits i).0 bit;
        flags = flags;
        listed = e;
        has = (==_iff (bit_and flags properties) properties).0 has;
      }

  fits-false : fits type_bits properties flags i ≡ false → ¬ Suitable m type_bits properties i
  unfolding contains
  fits-false h s =
      let same : flags ≡ s.flags = cc (e, s.listed) in
      let bit = (bit_and-pow_iff type_bits i).1 s.named in
      let has = (==_iff (bit_and flags properties) properties).1 (rw same s.has) in
      let t : fits type_bits properties flags i ≡ true = rw (bit, has) refl in cc

module _ (b : Build) (m : MemoryProperties) (type_bits properties : ℕ) (is : Listed m) where
  find_from-Found :
      (n i : ℕ)
      → n + i ≡ m.memory_type_count
      → ((j : ℕ) → j < i → ¬ Suitable m type_bits properties j)
      → Found m type_bits properties (find_from b m type_bits properties n i)
  unfolding find_from
  find_from-Found zero i e before = none_found λ j h. before j (omega arith)
  find_from-Found (suc n) i e before =
      let small : i < 32 = omega (arith, is.used) in
      let (flags, at) = get_elem?-some m.memory_types i (omega (arith, is.places)) in
      let rest = find_from-Found n (i + 1) (omega arith) in
      elim (Bool-cases (fits type_bits properties flags i)) [
        | inl t ↦
            rw (shl_one {E = ResourceError} b i small, at, t)
              (found (omega arith) (fits→Suitable m type_bits properties i flags at t) before)
        | inr f ↦
            rw (shl_one {E = ResourceError} b i small, at, f)
              (rest λ j h. elim (dec_lt j i) [
                | yes lt ↦ before j lt
                | no ge ↦
                    let same : j ≡ i = omega arith in
                    rw same (fits-false m type_bits properties i flags at f)
              ])
      ]

  -- With the memory types that Vulkan promises, the search never panics; it returns the least index
  -- that the bits name and whose type has the properties, and the error only where there is none.
  pub find_memory_type-Found :
      Found m type_bits properties (find_memory_type b m type_bits properties)
  unfolding find_memory_type
  find_memory_type-Found =
      find_from-Found m.memory_type_count 0 (omega arith) λ j h. absurd (omega arith)
