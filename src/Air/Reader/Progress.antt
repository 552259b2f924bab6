-- ===== src/Air/Reader/Progress.antt =====
-- On how far the methods of `BitReader` move, and where they index the buffer.
use vulkan_cocoa_core.Common.{
  ℕ, zero, suc, ◌+◌, ◌-◌, ◌*◌, ◌/◌, ◌%◌, ◌^◌, ◌≤◌, ◌<◌, ◌≡◌, ◌≢◌, ◌⊎◌, inl, inr, List, length,
  get_elem?, get_elem?-some, lt_of_get_elem?, arith, refl, ap, ltb, ◌==◌, bit_and, bit_or,
  Bool-cases, Option-cases, zero_or_pos, leb,
}
use vulkan_cocoa_core.Machine.{
  Build, checked, wrapping, Panic, index_out_of_bounds, overflow, subtract_overflow, usize_sub,
  u32_sub, u64_shl,
}
use vulkan_cocoa_core.Machine.Ensures.{
  Ensures, holds, rejected, panics, Ensures-if, Ensures-bind, Ensures-mono, u64_shl-Ensures,
  u32_sub-Ensures, u32_add-Ensures,
}
use vulkan_cocoa_core.Air.Reader.{
  BitReader, bits_remaining, read_bit, read_loop, read, vbr_loop, read_vbr, align32,
}

-- The runs for which memory safety is claimed.
abbrev pub Guarded : Build → List ℕ → Type 0
Guarded b xs = (b ≡ checked) ⊎ (length xs % 4 ≡ 0)

-- A guarded run never indexes out of bounds.
abbrev pub Allowed : Build → List ℕ → Panic → Type 0
Allowed b xs p = Guarded b xs → p ≢ index_out_of_bounds

-- A reader of `xs`; where the length is a multiple of four, it never passes the end.
pub record On (xs : List ℕ) (r : BitReader) : Type 0 where
  pub same : r.bytes ≡ xs
  pub inside : length xs % 4 ≡ 0 → r.bit_pos ≤ length xs * 8

-- The reader is on `xs` still, and no earlier than `pos`.
pub record Past (xs : List ℕ) (pos : ℕ) (r : BitReader) : Type 0 where
  pub on : On xs r
  pub later : pos ≤ r.bit_pos

abbrev pub Moved : {A : Type 0} → List ℕ → ℕ → A × BitReader → Type 0
Moved xs pos (v, r) = Past xs pos r

module _ (b : Build) {xs : List ℕ} where
  -- What is left, as far as the guard speaks for it.
  pub bits_remaining-Ensures :
      {r : BitReader}
      → On xs r
      → Ensures
          (Allowed b xs)
          (λ n. Guarded b xs → r.bit_pos + n ≡ length xs * 8)
          (bits_remaining b r)
  unfolding bits_remaining usize_sub
  bits_remaining-Ensures {r} on = rw on.same (
      Ensures-if (leb r.bit_pos (length xs * 8)) (λ h. holds (λ _. ground arith))
        (λ h.
          elim b
            as (λ c.
              Ensures (Allowed c xs) (λ n. Guarded c xs → r.bit_pos + n ≡ length xs * 8)
                (overflow c subtract_overflow (length xs * 8 + 2 ^ 64 - r.bit_pos))) [
                  | checked ↦ panics (λ _. cc)
                  | wrapping ↦
                      holds
                        (λ g. elim g [ inl e ↦ cc | inr m ↦ absurd (ground (arith, on.inside m)) ])
                ]))

  read_bit-Ensures :
      (i result : ℕ) {r : BitReader}
      → On xs r
      → (Guarded b xs → r.bit_pos < length xs * 8)
      → Ensures
          (Allowed b xs)
          (λ (v, r'). On xs r' × (r'.bit_pos ≡ r.bit_pos + 1) × (r'.bit_pos ≤ length xs * 8))
          (read_bit b i result r)
  unfolding read_bit
  read_bit-Ensures i result {r} on h = elim (Option-cases (get_elem? r.bytes (r.bit_pos / 8))) [
    | inl out ↦
        rw (out, read_bit)
          (panics λ g.
            let (x, e) =
              get_elem?-some r.bytes (r.bit_pos / 8) (omega (arith, h g, ap length on.same)) in
            cc)
    | inr (x, e) ↦
        rw (e, read_bit)
          (Ensures-bind (u64_shl-Ensures b _ _ (λ _. cc)) λ v _.
            let end : r.bit_pos + 1 ≤ length xs * 8 =
              omega (arith, lt_of_get_elem? r.bytes (r.bit_pos / 8) e, ap length on.same) in
            holds (record { same = on.same; inside = λ _. end }, refl, end))
  ]

  read_loop-Ensures :
      (n i result : ℕ) {r : BitReader}
      → On xs r
      → (Guarded b xs → r.bit_pos + n ≤ length xs * 8)
      → Ensures
          (Allowed b xs)
          (λ (v, r').
            On xs r' × (r'.bit_pos ≡ r.bit_pos + n) × (0 < n → r'.bit_pos ≤ length xs * 8))
          (read_loop b n i result r)
  unfolding read_loop
  read_loop-Ensures zero i result on h = holds (on, omega arith, omega arith)
  read_loop-Ensures (suc n) i result {r} on h =
      Ensures-bind (read_bit-Ensures i result on (λ g. omega (arith, h g))) λ (v, r') (on', e, l).
        Ensures-mono (read_loop-Ensures n (i + 1) v on' (λ g. omega (arith, h g)))
          λ (w, r'') (on'', e', l').
            (on'', omega arith, λ _. elim (zero_or_pos n) [ inl z ↦ omega arith | inr p ↦ l' p ])

  -- `read` of `n` bits moves by `n`, and not past the end.
  pub read-Ensures :
      (n : ℕ) {r : BitReader}
      → On xs r
      → Ensures
          (Allowed b xs)
          (λ (v, r').
            On xs r' × (r'.bit_pos ≡ r.bit_pos + n) × (0 < n → r'.bit_pos ≤ length xs * 8))
          (read b n r)
  unfolding read
  read-Ensures n {r} on =
      Ensures-if (n == 0) (λ z. holds (on, ground arith, ground arith))
        λ nz. Ensures-bind (bits_remaining-Ensures on) λ rem left.
          Ensures-if (ltb rem n) (λ _. rejected)
            λ fits. read_loop-Ensures n 0 0 on (λ g. ground (arith, left g))

  pub read-Past :
      (n : ℕ) {r : BitReader} → On xs r → Ensures (Allowed b xs) (Moved xs r.bit_pos) (read b n r)
  read-Past n on =
      Ensures-mono (read-Ensures n on)
        λ (v, r') (on', e, l). record { on = on'; later = omega arith }

  vbr_loop-Past :
      (fuel : ℕ) (width hi_mask shift result : ℕ) {r : BitReader}
      → 0 < width
      → On xs r
      → length xs * 8 - r.bit_pos < fuel
      → Ensures (Allowed b xs) (Moved xs r.bit_pos) (vbr_loop b fuel width hi_mask shift result r)
  unfolding vbr_loop
  vbr_loop-Past zero width hi shift result w on h = absurd (omega arith)
  vbr_loop-Past (suc fuel) width hi shift result {r} w on h =
      Ensures-bind (read-Ensures width on) λ (piece, r') (on', e, l).
        Ensures-bind (u64_shl-Ensures b _ _ (λ _. cc)) λ v _.
          Ensures-if (bit_and piece hi == 0) (λ _. holds (record { on = on'; later = omega arith }))
            (λ _. Ensures-bind (u32_sub-Ensures b _ _ (λ _. cc)) λ w' _.
              Ensures-bind (u32_add-Ensures b _ _ (λ _. cc)) λ shift' _.
                Ensures-mono
                  (vbr_loop-Past fuel width hi shift' (bit_or result v) w on' (omega (arith, l w)))
                  λ (u, r'') past. record { on = past.on; later = omega (arith, past.later) })

  -- A width of zero panics in a checked build, and reads a zero in a wrapping one.
  read_vbr-zero :
      {r : BitReader} → On xs r → Ensures (Allowed b xs) (Moved xs r.bit_pos) (read_vbr b 0 r)
  unfolding read_vbr read u32_sub u64_shl
  read_vbr-zero {r} on =
      elim b as (λ c. Ensures (Allowed c xs) (Moved xs r.bit_pos) (read_vbr c 0 r)) [
        | checked ↦ panics (λ _. cc)
        | wrapping ↦ holds (record { on = on; later = omega arith })
      ]

  pub read_vbr-Past :
      (width : ℕ) {r : BitReader}
      → On xs r
      → Ensures (Allowed b xs) (Moved xs r.bit_pos) (read_vbr b width r)
  unfolding read_vbr
  read_vbr-Past zero on = read_vbr-zero on
  read_vbr-Past (suc w) {r} on = Ensures-bind (u32_sub-Ensures b _ _ (λ _. cc)) λ s _.
      Ensures-bind (u64_shl-Ensures b _ _ (λ _. cc)) λ hi _.
        Ensures-bind (read-Ensures (suc w) on) λ (piece, r') (on', e, l).
          Ensures-if (bit_and piece hi == 0) (λ _. holds (record { on = on'; later = omega arith }))
            (λ _.
              Ensures-mono
                (vbr_loop-Past (length r.bytes * 8 + 1) (suc w) hi s _ (omega arith) on'
                  (omega (arith, ap length on.same)))
                λ (u, r'') past. record { on = past.on; later = omega (arith, past.later) })

-- Alignment keeps to the buffer where that is a whole number of words.
pub align32-Past :
    {xs : List ℕ} (pos : ℕ) {r : BitReader} → On xs r → pos ≤ r.bit_pos → Past xs pos (align32 r)
unfolding align32
align32-Past {xs} pos {r} on h = elim (Bool-cases (r.bit_pos % 32 == 0)) [
  | inl z ↦ rw z (record { on = on; later = h })
  | inr nz ↦ rw nz (record {
    on = record { same = on.same; inside = λ m. ground (arith, on.inside m) };
    later = omega arith;
  })
]

pub Past-weaken : {xs : List ℕ} {p q : ℕ} {r : BitReader} → p ≤ q → Past xs q r → Past xs p r
Past-weaken h past = record { on = past.on; later = omega (arith, past.later) }

pub Past-here : {xs : List ℕ} {r : BitReader} → On xs r → Past xs r.bit_pos r
Past-here on = record { on = on; later = omega arith }

-- The same, from a reader that is past `pos` already.
module _ (b : Build) {xs : List ℕ} {pos : ℕ} {r : BitReader} (past : Past xs pos r) where
  pub read-Moved : (n : ℕ) → Ensures (Allowed b xs) (Moved xs pos) (read b n r)
  read-Moved n =
      Ensures-mono (read-Past b n past.on)
        λ (v, r') p. record { on = p.on; later = omega (arith, past.later, p.later) }

  pub read_vbr-Moved : (width : ℕ) → Ensures (Allowed b xs) (Moved xs pos) (read_vbr b width r)
  read_vbr-Moved width =
      Ensures-mono (read_vbr-Past b width past.on)
        λ (v, r') p. record { on = p.on; later = omega (arith, past.later, p.later) }
