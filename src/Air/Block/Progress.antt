-- ===== src/Air/Block/Progress.antt =====
-- On how far `parse_block` moves, its fuel, and where it indexes the buffer.
use vulkan_cocoa_core.Common.{
  ℕ, zero, suc, ◌+◌, ◌-◌, ◌*◌, ◌<◌, ◌≡◌, ◌⊎◌, inl, inr, List, [], ◌∷◌, ◌++◌, get_elem?,
  Option-cases, length, arith, ltb, ◌==◌, refl, ap,
}
use vulkan_cocoa_core.Machine.{Build}
use vulkan_cocoa_core.Machine.Ensures.{
  Ensures, holds, rejected, Ensures-if, Ensures-bind, Ensures-mono, with_capacity-Ensures,
}
use vulkan_cocoa_core.Air.Syntax.{
  end_block, enter_subblock, define_abbrev, unabbrev_record, first_application_abbrev, AbbrevTable,
  BitstreamBlock,
}
use vulkan_cocoa_core.Air.Reader.{BitReader, read}
use vulkan_cocoa_core.Air.Reader.Progress.{
  Allowed, On, Past, Moved, Past-weaken, Past-here, bits_remaining-Ensures, read-Ensures,
  read-Moved, read_vbr-Moved, align32-Past,
}
use vulkan_cocoa_core.Air.Abbrev.Progress.{read_abbrev_def-Moved, read_abbreviated_record-Moved}
use vulkan_cocoa_core.Air.Block.{
  Frame, open_frame, read_block_header, read_operands, read_unabbrev_record, read_record,
  read_abbrev_id, add_def, parse_loop, parse_block, push_block,
}

module _ (b : Build) {xs : List ℕ} {pos : ℕ} where
  pub read_block_header-Moved :
      {r : BitReader}
      → Past xs pos r
      → Ensures (Allowed b xs) (Moved xs pos) (read_block_header b r)
  unfolding read_block_header
  read_block_header-Moved past = Ensures-bind (read_vbr-Moved b past 8) λ (id, r₁) p₁.
      Ensures-bind (read_vbr-Moved b p₁ 4) λ (w, r₂) p₂.
        Ensures-bind (read-Moved b (align32-Past pos p₂.on p₂.later) 32) λ _ p₃. holds p₃

  read_operands-Moved :
      (n : ℕ) (operands : List ℕ) {r : BitReader}
      → Past xs pos r
      → Ensures (Allowed b xs) (Moved xs pos) (read_operands b n operands r)
  unfolding read_operands
  read_operands-Moved zero operands past = holds past
  read_operands-Moved (suc n) operands past =
      Ensures-bind (read_vbr-Moved b past 6)
        λ (v, r₁) p₁. read_operands-Moved n (operands ++ v ∷ []) p₁

  read_unabbrev_record-Moved :
      (fr : Frame) {r : BitReader}
      → Past xs pos r
      → Ensures (Allowed b xs) (Moved xs pos) (read_unabbrev_record b fr r)
  unfolding read_unabbrev_record
  read_unabbrev_record-Moved fr past = Ensures-bind (read_vbr-Moved b past 6) λ (code, r₁) p₁.
      Ensures-bind (read_vbr-Moved b p₁ 6) λ (n, r₂) p₂.
        Ensures-bind (Ensures-bind (with_capacity-Ensures b n _ (λ _. cc)) λ _ _. holds p₂)
          λ _ p₃. Ensures-bind (read_operands-Moved n [] p₃) λ _ p₄. holds p₄

  read_record-Moved :
      (id : ℕ) (fr : Frame) {r : BitReader}
      → Past xs pos r
      → Ensures (Allowed b xs) (Moved xs pos) (read_record b id fr r)
  unfolding read_record
  read_record-Moved id fr past =
      elim (Option-cases (get_elem? fr.local_abbrevs (id - first_application_abbrev))) [
        | inl none_there ↦ rw (none_there, read_record) rejected
        | inr (def, there) ↦
            rw (there, read_record)
              (Ensures-bind (read_abbreviated_record-Moved b def past) λ _ p. holds p)
      ]

-- What a run of `parse_block` leaves: a reader past `pos`.
abbrev pub Left : List ℕ → ℕ → BitstreamBlock × AbbrevTable × BitReader → Type 0
Left xs pos (_, _, r) = Past xs pos r

module _ (b : Build) {xs : List ℕ} where
  -- The id is END_BLOCK, or a bit of the buffer was read for it.
  read_abbrev_id-Ensures :
      (fr : Frame) {r : BitReader}
      → On xs r
      → Ensures
          (Allowed b xs)
          (λ (id, r').
            Past xs r.bit_pos r'
            × ((id ≡ 0) ⊎ (length xs * 8 - r'.bit_pos < length xs * 8 - r.bit_pos)))
          (read_abbrev_id b fr r)
  unfolding read_abbrev_id read
  read_abbrev_id-Ensures fr {r} on =
      Ensures-bind (bits_remaining-Ensures b on)
        λ rem _. Ensures-if (ltb rem fr.abbrev_width) (λ _. rejected) (λ _. id fr.abbrev_width)
    where
      id :
          (w : ℕ)
          → Ensures
              (Allowed b xs)
              (λ (id, r').
                Past xs r.bit_pos r'
                × ((id ≡ 0) ⊎ (length xs * 8 - r'.bit_pos < length xs * 8 - r.bit_pos)))
              (read b w r)
      id zero = holds (Past-here on, inl refl)
      id (suc w) = Ensures-mono (read-Ensures b (suc w) on) λ (v, r') (on', e, l).
          (record { on = on'; later = omega arith }, inr (omega (arith, l (omega arith))))

  parse_loop-Left :
      (fuel : ℕ) (fr : Frame) (table : AbbrevTable) {r : BitReader}
      → On xs r
      → length xs * 8 - r.bit_pos < fuel
      → Ensures (Allowed b xs) (Left xs r.bit_pos) (parse_loop b fuel fr table r)
  unfolding parse_loop
  parse_loop-Left zero fr table on h = absurd (omega arith)
  parse_loop-Left (suc fuel) fr table {r} on h =
      Ensures-bind (read_abbrev_id-Ensures fr on) λ (id, r₁) (p₁, less).
        Ensures-if (id == end_block) (λ _. holds (align32-Past r.bit_pos p₁.on p₁.later))
          λ going.
            let fuel₁ : length xs * 8 - r₁.bit_pos < fuel = ground arith in
            let go : (fr' : Frame) (table' : AbbrevTable) (r' : BitReader)
                → Past xs r₁.bit_pos r'
                → Ensures (Allowed b xs) (Left xs r.bit_pos) (parse_loop b fuel fr' table' r') =
              λ fr' table' r' p.
                Ensures-mono (parse_loop-Left fuel fr' table' p.on (omega (arith, p.later)))
                  (λ _ left. Past-weaken (omega (arith, p₁.later, p.later)) left) in
            let here = Past-here p₁.on in
            Ensures-if (id == enter_subblock)
              (λ _. Ensures-bind (read_block_header-Moved b here) λ ((sid, w), r₂) p₂.
                Ensures-bind
                  (parse_loop-Left fuel (open_frame sid w table) table p₂.on
                    (omega (arith, p₂.later)))
                  λ (sub, table', r₃) left.
                    go (record fr { subblocks = push_block fr.subblocks sub }) table' r₃
                      (Past-weaken p₂.later left))
              λ _.
                Ensures-if (id == define_abbrev)
                  (λ _.
                    Ensures-bind (read_abbrev_def-Moved b here)
                      λ (def, r₂) p₂. go (add_def def fr table).0 (add_def def fr table).1 r₂ p₂)
                  λ _.
                    Ensures-if (id == unabbrev_record)
                      (λ _.
                        Ensures-bind (read_unabbrev_record-Moved b fr here)
                          λ (fr', r₂) p₂. go fr' table r₂ p₂)
                      (λ _.
                        Ensures-bind (read_record-Moved b id fr here)
                          λ (fr', r₂) p₂. go fr' table r₂ p₂)

  -- From a reader of the buffer, `parse_block` ends; where it returns, the reader is on the same
  -- buffer, not before where it was; and in a checked build, or on a whole number of words, it never
  -- indexes the buffer out of bounds.
  pub parse_block-Left :
      (width id : ℕ) (table : AbbrevTable) {r : BitReader}
      → On xs r
      → Ensures (Allowed b xs) (Left xs r.bit_pos) (parse_block b width id table r)
  unfolding parse_block
  parse_block-Left width id table {r} on =
      parse_loop-Left (length r.bytes * 8 + 1) (open_frame id width table) table on
        (omega (arith, ap length on.same))
