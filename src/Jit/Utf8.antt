-- ===== src/Jit/Utf8.antt =====
-- The bytes that the standard library's `String::from_utf8` accepts: well-formed UTF-8.
use vulkan_cocoa_core.Common.{
  ℕ, zero, suc, List, [], ◌∷◌, Option, none, some, Bool, true, false, ◌&&◌, ltb, leb, ◌==◌,
  if◌then◌else◌,
}

-- What a leading byte asks for: how many more bytes, and the range of the first of them.
unfoldable pub leading : ℕ → Option (ℕ × ℕ × ℕ)
leading x =
    if ltb x 0x80
    then some (0, 0, 0)
    else if leb 0xC2 x && leb x 0xDF
    then some (1, 0x80, 0xBF)
    else if x == 0xE0
    then some (2, 0xA0, 0xBF)
    else if x == 0xED
    then some (2, 0x80, 0x9F)
    else if leb 0xE1 x && leb x 0xEF
    then some (2, 0x80, 0xBF)
    else if x == 0xF0
    then some (3, 0x90, 0xBF)
    else if leb 0xF1 x && leb x 0xF3
    then some (3, 0x80, 0xBF)
    else if x == 0xF4
    then some (3, 0x80, 0x8F)
    else none

-- `pending` more bytes of a character are due, the next of them from `lo` to `hi`.
unfoldable pub utf8_from : (pending lo hi : ℕ) → List ℕ → Bool
unfolding leading
utf8_from zero lo hi [] = true
utf8_from (suc n) lo hi [] = false
utf8_from zero lo hi (x ∷ xs) = elim (leading x) [
  | none ↦ false
  | some (n, lo', hi') ↦ utf8_from n lo' hi' xs
]
utf8_from (suc n) lo hi (x ∷ xs) = leb lo x && leb x hi && utf8_from n 0x80 0xBF xs

unfoldable pub is_utf8 : List ℕ → Bool
unfolding utf8_from
is_utf8 xs = utf8_from 0 0 0 xs
