-- ===== src/Air/Locate.antt =====
-- `locate_bitstream` of src/shader_jit/air_parser.rs: the raw bitstream, or the one in a wrapper.
pub mod Found
use vulkan_cocoa_core.Common.{
  ℕ, ◌+◌, ◌-◌, ◌*◌, ◌^◌, List, [], ◌∷◌, Option, none, some, Bool, true, false, ◌&&◌, not, length,
  take, drop, ltb, leb, ◌==◌, if◌then◌else◌,
}
use vulkan_cocoa_core.Machine.{Run, ok, err, panic, bind, index_out_of_bounds}
use vulkan_cocoa_core.Air.Syntax.{
  bitcode_wrapper_magic, raw_bitcode_magic, AirParseError, no_bitcode_magic, wrapper_out_of_bounds,
  BitcodeWrapperHeader,
}

-- `a == b` on slices of bytes.
unfoldable pub bytes_eq : List ℕ → List ℕ → Bool
bytes_eq [] [] = true
bytes_eq (x ∷ xs) (y ∷ ys) = x == y && bytes_eq xs ys
bytes_eq _ _ = false

-- `&data[start..end]`
unfoldable pub slice : {E : Type 0} → (start end : ℕ) → List ℕ → Run E (List ℕ)
slice start end xs =
    if leb start end && leb end (length xs)
    then ok (take (end - start) (drop start xs))
    else panic index_out_of_bounds

-- `u32::from_le_bytes([data[i], data[i + 1], data[i + 2], data[i + 3]])`, of `drop i data`.
unfoldable pub u32_le : {E : Type 0} → List ℕ → Run E ℕ
u32_le (x₀ ∷ x₁ ∷ x₂ ∷ x₃ ∷ xs) = ok (x₀ + 256 * (x₁ + 256 * (x₂ + 256 * x₃)))
u32_le _ = panic index_out_of_bounds

-- The two header tests for the raw magic; `&&` and `||` leave the slice out of a short input.
unfoldable pub has_raw_magic : List ℕ → Bool
unfolding bytes_eq
has_raw_magic xs = leb 4 (length xs) && bytes_eq (take 4 xs) raw_bitcode_magic

abbrev pub Located : Type 0
Located = Run AirParseError (List ℕ × Option BitcodeWrapperHeader)

unfoldable pub read_wrapper_header : List ℕ → Run AirParseError BitcodeWrapperHeader
unfolding u32_le
read_wrapper_header xs = bind (u32_le (drop 4 xs)) λ version. bind (u32_le (drop 8 xs)) λ offset.
    bind (u32_le (drop 12 xs)) λ size. bind (u32_le (drop 16 xs)) λ cpu_type.
      ok (record { version = version; offset = offset; size = size; cpu_type = cpu_type })

-- What the wrapper's header points at. `checked_add` fails from 2 ^ 64 on.
unfoldable pub unwrap_bitstream : List ℕ → BitcodeWrapperHeader → Located
unfolding has_raw_magic slice
unwrap_bitstream xs h =
    let end = h.offset + h.size in
    if leb (2 ^ 64) end
    then err wrapper_out_of_bounds
    else if ltb (length xs) end
    then err wrapper_out_of_bounds
    else bind (slice h.offset end xs)
        λ inner. if not (has_raw_magic inner) then err no_bitcode_magic else ok (inner, some h)

unfoldable pub locate_bitstream : List ℕ → Located
unfolding has_raw_magic u32_le read_wrapper_header unwrap_bitstream
locate_bitstream xs =
    let wrapped = bind (u32_le xs) λ magic.
      if magic == bitcode_wrapper_magic
      then bind (read_wrapper_header xs) (unwrap_bitstream xs)
      else err no_bitcode_magic in
    if has_raw_magic xs
    then ok (xs, none)
    else if leb 20 (length xs)
    then wrapped
    else err no_bitcode_magic
