-- ===== src/Air/Abbrev/Progress.antt =====
-- On how far the readers of abbreviations move, and where they index the buffer.
use vulkan_cocoa_core.Common.{ℕ, zero, suc, ◌%◌, ◌^◌, ◌+◌, List, [], ◌∷◌, ◌++◌, ◌==◌, length}
use vulkan_cocoa_core.Machine.{Build}
use vulkan_cocoa_core.Machine.Ensures.{
  Ensures, holds, rejected, Ensures-if_at, Ensures-bind, with_capacity-Ensures,
}
use vulkan_cocoa_core.Air.Syntax.{AbbrevOp, AbbrevDef, literal, fixed, vbr, array, char6, blob}
use vulkan_cocoa_core.Air.Reader.{BitReader}
use vulkan_cocoa_core.Air.Reader.Progress.{
  Allowed, Past, Moved, read-Moved, read_vbr-Moved, align32-Past,
}
use vulkan_cocoa_core.Air.Abbrev.{
  read_encoded_op, read_abbrev_op, read_abbrev_ops, read_abbrev_def, read_element, read_array,
  read_blob, read_ops, read_abbreviated_record,
}

module _ (b : Build) {xs : List ℕ} {pos : ℕ} where
  read_encoded_op-Moved :
      (encoding : ℕ) {r : BitReader}
      → Past xs pos r
      → Ensures (Allowed b xs) (Moved xs pos) (read_encoded_op b encoding r)
  unfolding read_encoded_op
  read_encoded_op-Moved encoding past =
      Ensures-if_at (encoding == 1) _ _ _ (Ensures-bind (read_vbr-Moved b past 5) λ _ p. holds p) (
        Ensures-if_at (encoding == 2) _ _ _ (Ensures-bind (read_vbr-Moved b past 5) λ _ p. holds p)
          (Ensures-if_at (encoding == 3) _ _ _ (holds past) (
            Ensures-if_at (encoding == 4) _ _ _ (holds past)
              (Ensures-if_at (encoding == 5) _ _ _ (holds past) rejected))))

  read_abbrev_op-Moved :
      {r : BitReader} → Past xs pos r → Ensures (Allowed b xs) (Moved xs pos) (read_abbrev_op b r)
  unfolding read_abbrev_op
  read_abbrev_op-Moved past = Ensures-bind (read-Moved b past 1) λ (l, r₁) p₁.
      Ensures-if_at (l == 0) _ _ _
        (Ensures-bind (read-Moved b p₁ 3) λ (e, r₂) p₂. read_encoded_op-Moved e p₂)
        (Ensures-bind (read_vbr-Moved b p₁ 8) λ _ p. holds p)

  read_element-Moved :
      (op : AbbrevOp) {r : BitReader}
      → Past xs pos r
      → Ensures (Allowed b xs) (Moved xs pos) (read_element b op r)
  unfolding read_element
  read_element-Moved (literal v) past = holds past
  read_element-Moved (fixed w) past = read-Moved b past w
  read_element-Moved (vbr w) past = read_vbr-Moved b past w
  read_element-Moved char6 past = read-Moved b past 6
  read_element-Moved array past = rejected
  read_element-Moved blob past = rejected

  read_array-Moved :
      (n : ℕ) (op : AbbrevOp) (values : List ℕ) {r : BitReader}
      → Past xs pos r
      → Ensures (Allowed b xs) (Moved xs pos) (read_array b n op values r)
  unfolding read_array
  read_array-Moved zero op values past = holds past
  read_array-Moved (suc n) op values past =
      Ensures-bind (read_element-Moved op past)
        λ (v, r₁) p₁. read_array-Moved n op (values ++ v ∷ []) p₁

  read_blob-Moved :
      (n : ℕ) (bytes : List ℕ) {r : BitReader}
      → Past xs pos r
      → Ensures (Allowed b xs) (Moved xs pos) (read_blob b n bytes r)
  unfolding read_blob
  read_blob-Moved zero bytes past = holds past
  read_blob-Moved (suc n) bytes past =
      Ensures-bind (read-Moved b past 8)
        λ (v, r₁) p₁. read_blob-Moved n (bytes ++ (v % 2 ^ 8) ∷ []) p₁

  read_abbrev_ops-Moved :
      (n : ℕ) (ops : List AbbrevOp) {r : BitReader}
      → Past xs pos r
      → Ensures (Allowed b xs) (Moved xs pos) (read_abbrev_ops b n ops r)
  unfolding read_abbrev_ops
  read_abbrev_ops-Moved zero ops past = holds past
  read_abbrev_ops-Moved (suc n) ops past =
      Ensures-bind (read_abbrev_op-Moved past)
        λ (op, r₁) p₁. read_abbrev_ops-Moved n (ops ++ op ∷ []) p₁

  pub read_abbrev_def-Moved :
      {r : BitReader} → Past xs pos r → Ensures (Allowed b xs) (Moved xs pos) (read_abbrev_def b r)
  unfolding read_abbrev_def
  read_abbrev_def-Moved past = Ensures-bind (read_vbr-Moved b past 5) λ (n, r₁) p₁.
      Ensures-bind (Ensures-bind (with_capacity-Ensures b n _ (λ _. cc)) λ _ _. holds p₁)
        λ _ p₂. Ensures-bind (read_abbrev_ops-Moved n [] p₂) λ _ p₃. holds p₃

  read_ops-Moved :
      (ops : List AbbrevOp) (values bytes : List ℕ) {r : BitReader}
      → Past xs pos r
      → Ensures (Allowed b xs) (Moved xs pos) (read_ops b ops values bytes r)
  unfolding read_ops
  read_ops-Moved [] values bytes past = holds past
  read_ops-Moved (literal v ∷ ops) values bytes past =
      read_ops-Moved ops (values ++ v ∷ []) bytes past
  read_ops-Moved (fixed w ∷ ops) values bytes past =
      Ensures-bind (read-Moved b past w) λ (v, _) p. read_ops-Moved ops (values ++ v ∷ []) bytes p
  read_ops-Moved (vbr w ∷ ops) values bytes past =
      Ensures-bind (read_vbr-Moved b past w)
        λ (v, _) p. read_ops-Moved ops (values ++ v ∷ []) bytes p
  read_ops-Moved (char6 ∷ ops) values bytes past =
      Ensures-bind (read-Moved b past 6) λ (v, _) p. read_ops-Moved ops (values ++ v ∷ []) bytes p
  read_ops-Moved (array ∷ []) values bytes past =
      Ensures-bind (read_vbr-Moved b past 6) λ _ _. rejected
  read_ops-Moved (array ∷ op ∷ ops) values bytes past =
      Ensures-bind (read_vbr-Moved b past 6) λ (n, _) p₁.
        Ensures-bind (read_array-Moved n op values p₁)
          λ (values', _) p₂. read_ops-Moved ops values' bytes p₂
  read_ops-Moved (blob ∷ ops) values bytes past =
      Ensures-bind (read_vbr-Moved b past 6) λ (len, r₁) p₁.
        Ensures-bind
          (Ensures-bind (with_capacity-Ensures b (length bytes + len) 1 (λ _. cc))
            λ _ _. holds (align32-Past pos p₁.on p₁.later))
          λ _ p₂.
            Ensures-bind (read_blob-Moved len bytes p₂)
              λ (bytes', r₃) p₃. read_ops-Moved ops values bytes' (align32-Past pos p₃.on p₃.later)

  pub read_abbreviated_record-Moved :
      (def : AbbrevDef) {r : BitReader}
      → Past xs pos r
      → Ensures (Allowed b xs) (Moved xs pos) (read_abbreviated_record b def r)
  unfolding read_abbreviated_record
  read_abbreviated_record-Moved def past =
      Ensures-bind (read_ops-Moved def.ops [] [] past) λ _ p. holds p
