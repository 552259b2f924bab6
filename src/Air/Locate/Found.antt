-- ===== src/Air/Locate/Found.antt =====
-- On what `locate_bitstream` of src/shader_jit/air_parser.rs finds.
use vulkan_cocoa_core.Common.{
  ℕ, ◌+◌, ◌-◌, ◌*◌, ◌/◌, ◌%◌, ◌^◌, ◌<◌, ◌≤◌, ◌≡◌, refl, ap, List, [], ◌∷◌, ◌++◌, Option, none, some,
  true, false, not, length, length-append, length-drop, drop-length_append, take-length_append,
  le→leb, le→ltb, lt→leb, take, drop, ltb, leb, ◌==◌, arith,
}
use vulkan_cocoa_core.Machine.{ok}
use vulkan_cocoa_core.Machine.Ensures.{Ensures, holds, rejected, Ensures-if, Ensures-bind}
use vulkan_cocoa_core.Air.Syntax.{
  bitcode_wrapper_magic, raw_bitcode_magic, AirParseError, BitcodeWrapperHeader,
}
use vulkan_cocoa_core.Air.Locate.{
  slice, u32_le, has_raw_magic, read_wrapper_header, unwrap_bitstream, locate_bitstream,
}

-- A list of at least `n` bytes has them in front.
u32_le-Ensures :
    (xs : List ℕ) → 4 ≤ length xs → Ensures {E = AirParseError} (λ _. ⊥) (λ v. Unit {0}) (u32_le xs)
unfolding u32_le
u32_le-Ensures (a ∷ b ∷ c ∷ d ∷ xs) h = holds tt
u32_le-Ensures [] h = absurd (omega arith)
u32_le-Ensures (a ∷ []) h = absurd (omega arith)
u32_le-Ensures (a ∷ b ∷ []) h = absurd (omega arith)
u32_le-Ensures (a ∷ b ∷ c ∷ []) h = absurd (omega arith)

-- The raw magic stands in front.
abbrev pub IsRaw : List ℕ → Type 0
IsRaw xs = (rest : List ℕ) × (xs ≡ raw_bitcode_magic ++ rest)

magic→IsRaw : (xs : List ℕ) → has_raw_magic xs ≡ true → IsRaw xs
unfolding has_raw_magic
magic→IsRaw (a ∷ b ∷ c ∷ d ∷ xs) h = (xs, ground arith)
magic→IsRaw [] h = cc
magic→IsRaw (a ∷ []) h = cc
magic→IsRaw (a ∷ b ∷ []) h = cc
magic→IsRaw (a ∷ b ∷ c ∷ []) h = cc

-- The bitstream that was found: all of the input, or the part that the wrapper's header names.
abbrev pub FoundIn : List ℕ → List ℕ × Option BitcodeWrapperHeader → Type 0
FoundIn xs (inner, none) = (inner ≡ xs) × IsRaw inner
FoundIn xs (inner, some h) =
    (h.offset + h.size ≤ length xs) × (inner ≡ take h.size (drop h.offset xs)) × IsRaw inner

slice-ok :
    {E : Type 0} (start end : ℕ) (xs : List ℕ)
    → start ≤ end
    → end ≤ length xs
    → slice {E = E} start end xs ≡ ok (take (end - start) (drop start xs))
unfolding slice
slice-ok start end xs p q = rw (le→leb start end p, le→leb end (length xs) q)

unwrap-FoundIn :
    (xs : List ℕ) (h : BitcodeWrapperHeader) → Ensures (λ _. ⊥) (FoundIn xs) (unwrap_bitstream xs h)
unfolding unwrap_bitstream
unwrap-FoundIn xs h =
    let end = h.offset + h.size in
    let inner = take h.size (drop h.offset xs) in
    Ensures-if (leb (2 ^ 64) end) (λ _. rejected)
      λ _.
        Ensures-if (ltb (length xs) end) (λ _. rejected)
          λ fits.
            let room : end ≤ length xs = ground arith in
            let all : end - h.offset ≡ h.size = omega arith in
            rw (slice-ok h.offset end xs (omega arith) room, all)
              (Ensures-if (not (has_raw_magic inner)) (λ _. rejected)
                λ raw. holds (room, refl, magic→IsRaw inner (ground arith)))

read_wrapper_header-Ensures :
    (xs : List ℕ) → 20 ≤ length xs → Ensures (λ _. ⊥) (λ _. Unit {0}) (read_wrapper_header xs)
unfolding read_wrapper_header
read_wrapper_header-Ensures xs h =
    Ensures-bind (u32_le-Ensures (drop 4 xs) (omega (arith, length-drop 4 xs))) λ _ _.
      Ensures-bind (u32_le-Ensures (drop 8 xs) (omega (arith, length-drop 8 xs))) λ _ _.
        Ensures-bind (u32_le-Ensures (drop 12 xs) (omega (arith, length-drop 12 xs))) λ _ _.
          Ensures-bind (u32_le-Ensures (drop 16 xs) (omega (arith, length-drop 16 xs)))
            λ _ _. holds tt

-- `locate_bitstream` never panics, and what it returns is the input or the named part of it, with
-- the raw magic in front.
pub locate_bitstream-FoundIn : (xs : List ℕ) → Ensures (λ _. ⊥) (FoundIn xs) (locate_bitstream xs)
unfolding locate_bitstream
locate_bitstream-FoundIn xs =
    Ensures-if (has_raw_magic xs) (λ raw. holds (refl, magic→IsRaw xs raw))
      λ _.
        Ensures-if (leb 20 (length xs))
          (λ long. Ensures-bind (u32_le-Ensures xs (ground arith)) λ magic _.
            Ensures-if (magic == bitcode_wrapper_magic)
              (λ _.
                Ensures-bind (read_wrapper_header-Ensures xs (ground arith))
                  λ h _. unwrap-FoundIn xs h)
              (λ _. rejected))
          (λ _. rejected)

-- The four bytes of a `u32`, as `to_le_bytes` gives them.
unfoldable pub le_bytes : ℕ → List ℕ
le_bytes v = v % 256 ∷ v / 256 % 256 ∷ v / 256 / 256 % 256 ∷ v / 256 / 256 / 256 % 256 ∷ []

-- A wrapper file: the five words of the header, and what follows it.
unfoldable pub wrapper : BitcodeWrapperHeader → List ℕ → List ℕ
unfolding le_bytes
wrapper h rest =
    le_bytes bitcode_wrapper_magic
    ++ (le_bytes h.version
        ++ (le_bytes h.offset ++ (le_bytes h.size ++ (le_bytes h.cpu_type ++ rest))))

pub record IsHeader (h : BitcodeWrapperHeader) : Type 0 where
  pub version : h.version < 2 ^ 32
  pub offset : h.offset < 2 ^ 32
  pub size : h.size < 2 ^ 32
  pub cpu_type : h.cpu_type < 2 ^ 32

word_eq :
    (v : ℕ)
    → v < 2 ^ 32
    → v % 256
        + 256 * (v / 256 % 256 + 256 * (v / 256 / 256 % 256 + 256 * (v / 256 / 256 / 256 % 256)))
      ≡ v
word_eq v h = omega arith

u32_le-le_bytes :
    {E : Type 0} (v : ℕ) (rest : List ℕ) → v < 2 ^ 32 → u32_le {E = E} (le_bytes v ++ rest) ≡ ok v
unfolding u32_le le_bytes
u32_le-le_bytes v rest h = ap ok (omega arith)

read_wrapper_header-wrapper :
    {h : BitcodeWrapperHeader} (rest : List ℕ)
    → IsHeader h
    → read_wrapper_header (wrapper h rest) ≡ ok h
unfolding read_wrapper_header wrapper
read_wrapper_header-wrapper {h} rest is = rw (
  word_eq h.version is.version,
  word_eq h.offset is.offset,
  word_eq h.size is.size,
  word_eq h.cpu_type is.cpu_type,
)

raw-has_raw_magic : (xs : List ℕ) → IsRaw xs → has_raw_magic xs ≡ true
unfolding has_raw_magic
raw-has_raw_magic xs (rest, e) = rw e (ground arith)

unwrap-wrapper :
    (h : BitcodeWrapperHeader) (pad inner post : List ℕ)
    → IsHeader h
    → h.offset ≡ 20 + length pad
    → h.size ≡ length inner
    → IsRaw inner
    → unwrap_bitstream (wrapper h pad ++ (inner ++ post)) h ≡ ok (inner, some h)
unfolding unwrap_bitstream wrapper
unwrap-wrapper h pad inner post is at size raw =
    let front = wrapper h pad in
    let length_front : length front ≡ h.offset = omega arith in
    let total = length-append front (inner ++ post) in
    let back = length-append inner post in
    let e : take (h.offset + h.size - h.offset) (drop h.offset (front ++ (inner ++ post))) ≡ inner =
      let n : h.offset + h.size - h.offset ≡ length inner = omega arith in
      rw (
        n,
        ← length_front,
        drop-length_append front (inner ++ post),
        take-length_append inner post,
      ) in
    rw (
      lt→leb (2 ^ 64) (h.offset + h.size) (omega (arith, is.offset, is.size)),
      le→ltb (length (front ++ (inner ++ post))) (h.offset + h.size) (omega arith),
      slice-ok h.offset (h.offset + h.size) (front ++ (inner ++ post)) (omega arith) (omega arith),
      e,
      raw-has_raw_magic inner raw,
    )

-- A wrapper around a raw bitstream, with any bytes before and behind it, gives the bitstream back
-- with the header as it was written.
pub locate_bitstream-wrapper :
    (h : BitcodeWrapperHeader) (pad inner post : List ℕ)
    → IsHeader h
    → h.offset ≡ 20 + length pad
    → h.size ≡ length inner
    → IsRaw inner
    → locate_bitstream (wrapper h pad ++ (inner ++ post)) ≡ ok (inner, some h)
unfolding locate_bitstream
locate_bitstream-wrapper h pad inner post is at size raw =
    let xs = wrapper h pad ++ (inner ++ post) in
    let other : has_raw_magic xs ≡ false = unfold has_raw_magic wrapper in ground arith in
    let long : leb 20 (length xs) ≡ true = unfold wrapper in ground arith in
    let magic : u32_le {E = AirParseError} xs ≡ ok bitcode_wrapper_magic =
      unfold u32_le wrapper in refl in
    let header : read_wrapper_header xs ≡ ok h =
      unfold wrapper in read_wrapper_header-wrapper (pad ++ (inner ++ post)) is in
    rw (other, long, magic, header) (unwrap-wrapper h pad inner post is at size raw)
