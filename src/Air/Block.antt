-- ===== src/Air/Block.antt =====
-- Blocks of src/shader_jit/air_parser.rs: `parse_block`. A `HashMap` is an association list.
pub mod Progress
use vulkan_cocoa_core.Common.{
  ℕ, zero, suc, ◌-◌, ◌*◌, ◌+◌, ◌%◌, ◌^◌, List, [], ◌∷◌, ◌++◌, Option, none, some, get_elem?, length,
  ltb, ◌==◌, ◌&&◌, if◌then◌else◌,
}
use vulkan_cocoa_core.Machine.{Build, Run, ok, err, out_of_fuel, bind, with_capacity}
use vulkan_cocoa_core.Air.Syntax.{
  end_block, enter_subblock, define_abbrev, unabbrev_record, first_application_abbrev,
  blockinfo_block_id, blockinfo_code_setbid, AirParseError, malformed, unexpected_eof,
  BitstreamRecord, BitstreamBlock, Blocks, bitstream_block, no_blocks, blocks, AbbrevDef,
  AbbrevTable,
}
use vulkan_cocoa_core.Air.Reader.{
  BitReader, Parser, pure, ◌>>=◌, ◌>>◌, lift, bits_remaining, read, read_vbr, align32,
}
use vulkan_cocoa_core.Air.Abbrev.{u64_size, align, read_abbrev_def, read_abbreviated_record}

-- `blockinfo.get(&id).cloned().unwrap_or_default()`
unfoldable pub get_or_default : ℕ → List (ℕ × List AbbrevDef) → List AbbrevDef
get_or_default id [] = []
get_or_default id ((k, defs) ∷ m) = if k == id then defs else get_or_default id m

-- `blockinfo.entry(id).or_default().push(def)`
unfoldable pub push_def : ℕ → AbbrevDef → List (ℕ × List AbbrevDef) → List (ℕ × List AbbrevDef)
push_def id def [] = (id, def ∷ []) ∷ []
push_def id def ((k, defs) ∷ m) =
    if k == id then (k, defs ++ def ∷ []) ∷ m else (k, defs) ∷ push_def id def m

unfoldable pub push_block : Blocks → BitstreamBlock → Blocks
push_block no_blocks s = blocks s no_blocks
push_block (blocks x xs) s = blocks x (push_block xs s)

-- The local variables of a call of `parse_block`; the first four make up `block`.
pub record Frame : Type 0 where
  pub block_id : ℕ
  pub abbrev_width : ℕ
  pub records : List BitstreamRecord
  pub subblocks : Blocks
  pub local_abbrevs : List AbbrevDef
  pub current_setbid : Option ℕ

unfoldable pub open_frame : (block_id abbrev_width : ℕ) → AbbrevTable → Frame
unfolding get_or_default
open_frame block_id abbrev_width table = record {
  block_id = block_id;
  abbrev_width = abbrev_width;
  records = [];
  subblocks = no_blocks;
  local_abbrevs = get_or_default block_id table.blockinfo;
  current_setbid = none;
}

abbrev pub block_of : Frame → BitstreamBlock
block_of fr = bitstream_block fr.block_id fr.abbrev_width fr.records fr.subblocks

-- The header behind an ENTER_SUBBLOCK: the block's id and the width of its abbreviation ids.
unfoldable pub read_block_header : Build → Parser (ℕ × ℕ)
read_block_header b = do
  block_id ← read_vbr b 8
  new_abbrev_width ← read_vbr b 4
  align
  _ ← read b 32
  pure (block_id, new_abbrev_width % 2 ^ 32)

-- A definition goes to the table in a BLOCKINFO block with a target, is dropped there without one,
-- and else is local.
unfoldable pub add_def : AbbrevDef → Frame → AbbrevTable → Frame × AbbrevTable
add_def def fr table =
    if fr.block_id == blockinfo_block_id
    then elim fr.current_setbid [
      | none ↦ (fr, table)
      | some target ↦ (fr, record { blockinfo = push_def target def table.blockinfo })
    ]
    else (record fr { local_abbrevs = fr.local_abbrevs ++ def ∷ [] }, table)

-- The operands of an unabbreviated record.
unfoldable pub read_operands : Build → ℕ → List ℕ → Parser (List ℕ)
read_operands b zero operands = pure operands
read_operands b (suc n) operands = read_vbr b 6 >>= λ v. read_operands b n (operands ++ v ∷ [])

unfoldable pub first : List ℕ → Option ℕ
first [] = none
first (x ∷ xs) = some x

unfoldable pub push_record : (abbrev_id code : ℕ) → (operands bytes : List ℕ) → Frame → Frame
push_record abbrev_id code operands bytes fr = record fr {
  records =
      fr.records
      ++ record { abbrev_id = abbrev_id; code = code; operands = operands; blob = bytes } ∷ [];
}

unfoldable pub read_unabbrev_record : Build → Frame → Parser Frame
read_unabbrev_record b fr = do
  code ← read_vbr b 6
  num_ops ← read_vbr b 6
  lift (with_capacity num_ops u64_size)
  operands ← read_operands b num_ops []
  let fr' =
      if fr.block_id == blockinfo_block_id && code == blockinfo_code_setbid
      then record fr { current_setbid = first operands }
      else fr
  pure (push_record unabbrev_record code operands [] fr')

unfoldable pub read_record : Build → (abbrev_id : ℕ) → Frame → Parser Frame
read_record b abbrev_id fr =
    elim (get_elem? fr.local_abbrevs (abbrev_id - first_application_abbrev)) [
      | none ↦ lift (err (malformed "abbreviated record references unknown abbreviation"))
      | some def ↦
          (read_abbreviated_record b def >>= λ (code, operands, bytes).
          pure (push_record abbrev_id code operands bytes fr))
    ]

-- The id that starts each round.
unfoldable pub read_abbrev_id : Build → Frame → Parser ℕ
read_abbrev_id b fr r = bind (bits_remaining b r) λ remaining.
    if ltb remaining fr.abbrev_width then err unexpected_eof else read b fr.abbrev_width r

-- What a run of `parse_block` returns, with the table and the reader that it changed.
abbrev pub Parsed : Type 0
Parsed = Run AirParseError (BitstreamBlock × AbbrevTable × BitReader)

-- The loop of `parse_block`. Each round reads the bits of an id, so the bits bound the fuel.
unfoldable pub parse_loop : Build → ℕ → Frame → AbbrevTable → BitReader → Parsed
parse_loop b zero fr table r = out_of_fuel
parse_loop b (suc fuel) fr table r = bind (read_abbrev_id b fr r) λ (abbrev_id, r₁).
    let enter = bind (read_block_header b r₁) λ ((id, width), r₂).
      bind (parse_loop b fuel (open_frame id width table) table r₂) λ (sub, table', r₃).
        parse_loop b fuel (record fr { subblocks = push_block fr.subblocks sub }) table' r₃ in
    let define =
      bind (read_abbrev_def b r₁)
        λ (def, r₂). let (fr', table') = add_def def fr table in parse_loop b fuel fr' table' r₂ in
    let unabbrev =
      bind (read_unabbrev_record b fr r₁) λ (fr', r₂). parse_loop b fuel fr' table r₂ in
    let other = bind (read_record b abbrev_id fr r₁) λ (fr', r₂). parse_loop b fuel fr' table r₂ in
    if abbrev_id == end_block
    then ok (block_of fr, table, align32 r₁)
    else if abbrev_id == enter_subblock
    then enter
    else if abbrev_id == define_abbrev
    then define
    else if abbrev_id == unabbrev_record
    then unabbrev
    else other

-- With a round for each bit and one more.
unfoldable pub parse_block : Build → (abbrev_width block_id : ℕ) → AbbrevTable → BitReader → Parsed
unfolding parse_loop
parse_block b abbrev_width block_id table r =
    parse_loop b (length r.bytes * 8 + 1) (open_frame block_id abbrev_width table) table r
