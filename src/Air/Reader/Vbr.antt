-- ===== src/Air/Reader/Vbr.antt =====
-- On variable-width integers: the pieces that an encoder of the bitstream format writes, and
-- `read_vbr` of src/shader_jit/air_parser.rs.
use native.Mathlib.Decide.{dec_lt}
use native.Mathlib.Nat.{
  mod-eq_of_lt, pow-le-pow_right, div-add-mod, mod-lt, add-div_left, add-mod_left, div-eq_of_lt,
  div-lt_iff_lt-mul,
}
use vulkan_cocoa_core.Common.{
  ℕ, zero, suc, ◌+◌, ◌-◌, ◌*◌, ◌/◌, ◌%◌, ◌^◌, ◌≤◌, ◌<◌, ◌≡◌, refl, ap, ◌∙◌, List, [], ◌∷◌, length,
  ltb, lt→ltb, le→leb, pos→ne_zero, Bool-cases, zero_or_pos, ltb→lt, ltb→le, inl, inr, arith,
  bit_and, if◌then◌else◌,
}
use vulkan_cocoa_core.Common.Bits.{bit_or-shift, bit_and-mask, bit_and-pow, pow_pos, pow-add}
use vulkan_cocoa_core.Machine.{Build, ok, u32_sub, u32_add, u64_shl}
use vulkan_cocoa_core.Air.Syntax.{AirParseError}
use vulkan_cocoa_core.Air.Reader.{vbr_loop, read_vbr}
use vulkan_cocoa_core.Air.Reader.Number.{IsBytes, bits_at}
use vulkan_cocoa_core.Air.Reader.Read.{at, done, done_eq, read_lem}

-- The pieces of `v`, each of `k` bits with a continuation bit above: set in all but the last.
unfoldable pub vbr_pieces : (rounds k v : ℕ) → List ℕ
vbr_pieces zero k v = []
vbr_pieces (suc n) k v =
    let rest = vbr_pieces n k (v / 2 ^ k) in
    if ltb v (2 ^ k) then v ∷ [] else (2 ^ k + v % 2 ^ k) ∷ rest

-- The pieces stand in `xs`, one behind the other from `pos` on, in `width` bits each.
abbrev pub Stored : List ℕ → (pos width : ℕ) → List ℕ → Type 0
Stored xs pos width [] = Unit
Stored xs pos width (p ∷ ps) =
    (bits_at xs pos width ≡ p) × (pos + width ≤ length xs * 8) × Stored xs (pos + width) width ps

shl_fits :
    {E : Type 0} (b : Build) (v s : ℕ)
    → s < 64
    → v * 2 ^ s < 2 ^ 64
    → u64_shl {E = E} b v s ≡ ok (v * 2 ^ s)
unfolding u64_shl
shl_fits b v s h k = rw (lt→ltb s 64 h) (ap ok (mod-eq_of_lt k))

-- A value that is not zero and keeps its bits is shifted by less than 64.
shift-lt : (v s : ℕ) → 0 < v → v * 2 ^ s < 2 ^ 64 → s < 64
shift-lt v s p h = elim (dec_lt s 64) [
  | yes lt ↦ lt
  | no ge ↦
      let big : 2 ^ 64 ≤ 2 ^ s =
        pow-le-pow_right {n = 2} (omega arith) {i = 64} {j = s} (omega arith) in
      let most : 1 * 2 ^ s ≤ v * 2 ^ s = grind arith in absurd (omega arith)
]

-- The last piece: no continuation bit, and all of it is payload.
last_piece : (k v : ℕ) → v < 2 ^ k → (bit_and v (2 ^ k) ≡ 0) × (bit_and v (2 ^ k - 1) ≡ v)
last_piece k v h =
    (bit_and-pow k v ∙ rw (div-eq_of_lt h) (omega arith), bit_and-mask k v ∙ mod-eq_of_lt h)

-- Another piece: the continuation bit and the low bits.
more_piece :
    (k m : ℕ)
    → m < 2 ^ k
    → (bit_and (2 ^ k + m) (2 ^ k) ≡ 2 ^ k) × (bit_and (2 ^ k + m) (2 ^ k - 1) ≡ m)
more_piece k m h =
    let one : (2 ^ k + m) / 2 ^ k ≡ 1 =
      add-div_left m (pow_pos k) ∙ omega (arith, div-eq_of_lt h) in
    let low : (2 ^ k + m) % 2 ^ k ≡ m = add-mod_left (2 ^ k) m ∙ mod-eq_of_lt h in
    (bit_and-pow k (2 ^ k + m) ∙ rw one (omega arith), bit_and-mask k (2 ^ k + m) ∙ low)

u32_sub_one : (b : Build) (k : ℕ) → u32_sub {E = AirParseError} b (suc k) 1 ≡ ok k
unfolding u32_sub
u32_sub_one b k = rw (le→leb 1 (suc k) (omega arith)) (ap ok (omega arith))

u32_add_small :
    (b : Build) (x y : ℕ) → x + y < 2 ^ 32 → u32_add {E = AirParseError} b x y ≡ ok (x + y)
unfolding u32_add
u32_add_small b x y h = rw (lt→ltb (x + y) (2 ^ 32) h)

-- The facts about one more piece: with `q` the rest and `m` the low bits, a value `v` at `s` is
-- `m` at `s` and `q` at `s + k`.
record Split (k s v q m : ℕ) : Type 0 where
  value : v * 2 ^ s ≡ m * 2 ^ s + q * 2 ^ (s + k)
  rest_pos : 0 < q
  low : m < 2 ^ k
  low_shifted : (m + 1) * 2 ^ s ≤ 2 ^ (s + k)

Split-value : (k s v : ℕ) → 2 ^ k ≤ v → Split k s v (v / 2 ^ k) (v % 2 ^ k)
Split-value k s v h = record {
  value = omega (
    arith,
    ap (λ (t : ℕ). t * 2 ^ s) (div-add-mod v (2 ^ k)),
    ap (λ (t : ℕ). v / 2 ^ k * t) (pow-add s k),
  );
  rest_pos = elim (zero_or_pos (v / 2 ^ k)) [
    | inl z ↦
        absurd
          (omega (arith, mod-lt v (pow_pos k), div-add-mod v (2 ^ k), ap (λ (t : ℕ). 2 ^ k * t) z))
    | inr q ↦ q
  ];
  low = mod-lt v (pow_pos k);
  low_shifted =
      let m : v % 2 ^ k + 1 ≤ 2 ^ k = omega (arith, mod-lt v (pow_pos k)) in
      let scaled : (v % 2 ^ k + 1) * 2 ^ s ≤ 2 ^ k * 2 ^ s = grind arith in
      omega (arith, pow-add s k);
}

rest-lt : (n k v : ℕ) → v < 2 ^ (suc n * k) → v / 2 ^ k < 2 ^ (n * k)
rest-lt n k v h =
    let e : suc n * k ≡ n * k + k = omega arith in
    (div-lt_iff_lt-mul (pow_pos k)).1 (omega (arith, rw e at h, pow-add (n * k) k))

module _ (b : Build) (xs : List ℕ) (bytes : IsBytes xs) (k : ℕ) (wide : k < 64) where
  vbr_loop_lem :
      (n fuel pos shift result v : ℕ)
      → 0 < v
      → v < 2 ^ (n * k)
      → v * 2 ^ shift < 2 ^ 64
      → result < 2 ^ shift
      → Stored xs pos (suc k) (vbr_pieces n k v)
      → length xs * 8 - pos < fuel
      → vbr_loop b fuel (suc k) (2 ^ k) shift result (at xs pos)
        ≡ done xs (result + v * 2 ^ shift) (pos + suc k * length (vbr_pieces n k v))
  unfolding vbr_loop vbr_pieces
  vbr_loop_lem zero fuel pos shift result v p small fits low stored h =
      let none_left : 0 * k ≡ 0 = omega arith in absurd (omega (arith, rw none_left at small))
  vbr_loop_lem (suc n) zero pos shift result v p small fits low stored h = absurd (omega arith)
  vbr_loop_lem (suc n) (suc fuel) pos shift result v p small fits low stored h =
      elim (Bool-cases (ltb v (2 ^ k))) [
        | inl last ↦
            let (clear, payload) = last_piece k v (ltb→lt v (2 ^ k) last) in
            let stored' = rw last at stored in
            rw
              (
                last,
                read_lem b xs bytes (suc k) pos wide stored'.1,
                stored'.0,
                payload,
                shl_fits {E = AirParseError} b v shift (shift-lt v shift p fits) fits,
                clear,
              )
              (done_eq (bit_or-shift shift result v low) (omega arith))
        | inr more ↦
            let q = v / 2 ^ k in
            let m = v % 2 ^ k in
            let parts = Split-value k shift v (ltb→le v (2 ^ k) more) in
            let (set, payload) = more_piece k m parts.low in
            let stored' = rw more at stored in
            let near = shift-lt v shift p fits in
            rw
              (
                more,
                read_lem b xs bytes (suc k) pos wide stored'.1,
                stored'.0,
                payload,
                shl_fits {E = AirParseError} b m shift near (omega (arith, parts.value)),
                set,
                pos→ne_zero (2 ^ k) (pow_pos k),
                u32_sub_one b k,
                u32_add_small b shift k (omega arith),
                bit_or-shift shift result m low,
              )
              (vbr_loop_lem n fuel (pos + suc k) (shift + k) (result + m * 2 ^ shift) q
                  parts.rest_pos (rest-lt n k v small) (omega (arith, parts.value))
                  (omega (arith, parts.low_shifted)) stored'.2 (omega (arith, stored'.1))
                ∙ done_eq (omega (arith, parts.value)) (omega arith))
      ]

  -- An integer below 2 ^ 64 whose pieces stand in the buffer is read back, in either build, and the
  -- reader moves behind its last piece.
  pub read_vbr-vbr_pieces :
      (n pos v : ℕ)
      → v < 2 ^ 64
      → v < 2 ^ (suc n * k)
      → Stored xs pos (suc k) (vbr_pieces (suc n) k v)
      → read_vbr b (suc k) (at xs pos) ≡ done xs v (pos + suc k * length (vbr_pieces (suc n) k v))
  unfolding read_vbr vbr_pieces
  read_vbr-vbr_pieces n pos v fits small stored =
      let hi : u64_shl {E = AirParseError} b 1 k ≡ ok (2 ^ k) =
        let p : 2 ^ k ≤ 2 ^ 63 =
          pow-le-pow_right {n = 2} (omega arith) {i = k} {j = 63} (omega arith) in
        shl_fits b 1 k wide (omega arith) ∙ ap ok (omega arith) in
      elim (Bool-cases (ltb v (2 ^ k))) [
        | inl last ↦
            let (clear, payload) = last_piece k v (ltb→lt v (2 ^ k) last) in
            let stored' = rw last at stored in
            rw
              (
                last,
                u32_sub_one b k,
                hi,
                read_lem b xs bytes (suc k) pos wide stored'.1,
                stored'.0,
                clear,
              )
              (done_eq refl (omega arith))
        | inr more ↦
            let q = v / 2 ^ k in
            let m = v % 2 ^ k in
            let parts = Split-value k 0 v (ltb→le v (2 ^ k) more) in
            let (set, payload) = more_piece k m parts.low in
            let stored' = rw more at stored in
            let zero_add : 0 + k ≡ k = omega arith in
            let value = rw zero_add at parts.value in
            rw
              (
                more,
                u32_sub_one b k,
                hi,
                read_lem b xs bytes (suc k) pos wide stored'.1,
                stored'.0,
                payload,
                set,
                pos→ne_zero (2 ^ k) (pow_pos k),
              )
              (vbr_loop_lem n (length xs * 8 + 1) (pos + suc k) k m q parts.rest_pos
                  (rest-lt n k v small) (omega (arith, value)) parts.low stored'.2 (omega arith)
                ∙ done_eq (omega (arith, value)) (omega arith))
      ]
