-- ===== src/Air/Abbrev.antt =====
-- Abbreviations of src/shader_jit/air_parser.rs: `read_abbrev_def` and `read_abbreviated_record`.
-- An allocation of at most `isize::MAX` bytes is taken to succeed.
pub mod Progress
use vulkan_cocoa_core.Common.{
  ℕ, zero, suc, ◌+◌, length, ◌%◌, ◌^◌, List, [], ◌∷◌, ◌++◌, ◌==◌, if◌then◌else◌,
}
use vulkan_cocoa_core.Machine.{Build, err, with_capacity}
use vulkan_cocoa_core.Air.Syntax.{
  AbbrevOp, AbbrevDef, literal, fixed, vbr, array, char6, blob, malformed,
}
use vulkan_cocoa_core.Air.Reader.{Parser, pure, ◌>>=◌, ◌>>◌, lift, read, read_vbr, align32}

-- The sizes in bytes of an `AbbrevOp` and of a `u64`.
abbrev pub abbrev_op_size : ℕ
abbrev_op_size = 16

abbrev pub u64_size : ℕ
u64_size = 8

-- The operand of an encoding. `as u32` keeps the low 32 bits.
unfoldable pub read_encoded_op : Build → ℕ → Parser AbbrevOp
read_encoded_op b encoding =
    if encoding == 1
    then (read_vbr b 5 >>= λ w. pure (fixed (w % 2 ^ 32)))
    else if encoding == 2
    then (read_vbr b 5 >>= λ w. pure (vbr (w % 2 ^ 32)))
    else if encoding == 3
    then pure array
    else if encoding == 4
    then pure char6
    else if encoding == 5
    then pure blob
    else lift (err (malformed "unknown abbrev operand encoding"))

-- One round of the loop of `read_abbrev_def`.
unfoldable pub read_abbrev_op : Build → Parser AbbrevOp
read_abbrev_op b = do
  is_literal ← read b 1
  if is_literal == 0
      then read b 3 >>= read_encoded_op b
      else read_vbr b 8 >>= λ value. pure (literal value)

unfoldable pub read_abbrev_ops : Build → ℕ → List AbbrevOp → Parser (List AbbrevOp)
read_abbrev_ops b zero ops = pure ops
read_abbrev_ops b (suc n) ops = read_abbrev_op b >>= λ op. read_abbrev_ops b n (ops ++ op ∷ [])

unfoldable pub read_abbrev_def : Build → Parser AbbrevDef
read_abbrev_def b = do
  num_ops ← read_vbr b 5
  lift (with_capacity num_ops abbrev_op_size)
  ops ← read_abbrev_ops b num_ops []
  pure (record { ops = ops })

-- One element of an array, by its operand.
unfoldable pub read_element : Build → AbbrevOp → Parser ℕ
read_element b (literal v) = pure v
read_element b (fixed w) = read b w
read_element b (vbr w) = read_vbr b w
read_element b char6 = read b 6
read_element b array = lift (err (malformed "invalid array element type"))
read_element b blob = lift (err (malformed "invalid array element type"))

-- The elements of an array, pushed behind `values`.
unfoldable pub read_array : Build → ℕ → AbbrevOp → List ℕ → Parser (List ℕ)
read_array b zero elem_op values = pure values
read_array b (suc n) elem_op values =
    read_element b elem_op >>= λ v. read_array b n elem_op (values ++ v ∷ [])

-- The bytes of a blob, pushed behind `bytes`.
unfoldable pub read_blob : Build → ℕ → List ℕ → Parser (List ℕ)
read_blob b zero bytes = pure bytes
read_blob b (suc n) bytes = read b 8 >>= λ v. read_blob b n (bytes ++ (v % 2 ^ 8) ∷ [])

abbrev pub align : Parser (Unit {0})
align r = pure tt (align32 r)

-- The operands from `i` on, with what was read before them.
unfoldable pub read_ops : Build → List AbbrevOp → (values bytes : List ℕ) → Parser (List ℕ × List ℕ)
read_ops b [] values bytes = pure (values, bytes)
read_ops b (literal v ∷ ops) values bytes = read_ops b ops (values ++ v ∷ []) bytes
read_ops b (fixed w ∷ ops) values bytes = read b w >>= λ v. read_ops b ops (values ++ v ∷ []) bytes
read_ops b (vbr w ∷ ops) values bytes =
    read_vbr b w >>= λ v. read_ops b ops (values ++ v ∷ []) bytes
read_ops b (char6 ∷ ops) values bytes = read b 6 >>= λ v. read_ops b ops (values ++ v ∷ []) bytes
read_ops b (array ∷ []) values bytes =
    read_vbr b 6 >>= λ count. lift (err (malformed "array missing element type"))
read_ops b (array ∷ elem_op ∷ ops) values bytes = read_vbr b 6 >>= λ count.
    read_array b count elem_op values >>= λ values'. read_ops b ops values' bytes
read_ops b (blob ∷ ops) values bytes = read_vbr b 6 >>= λ len.
    align
    >> (lift (with_capacity (length bytes + len) 1)
        >> (read_blob b len bytes >>= λ bytes'. align >> read_ops b ops values bytes'))

-- `values.first()` is the code, and the others are the operands.
unfoldable pub split_code : List ℕ → ℕ × List ℕ
split_code [] = (0, [])
split_code (code ∷ operands) = (code, operands)

unfoldable pub read_abbreviated_record : Build → AbbrevDef → Parser (ℕ × List ℕ × List ℕ)
read_abbreviated_record b def = do
  (values, bytes) ← read_ops b def.ops [] []
  let (code, operands) = split_code values
  pure (code, operands, bytes)
