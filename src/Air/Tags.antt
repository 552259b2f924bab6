-- ===== src/Air/Tags.antt =====
-- `scan_known_air_tags` of src/shader_jit/air_parser.rs. The code searches the text that
-- `String::from_utf8_lossy` makes of the bytes. That text keeps every ASCII byte, and has a
-- replacement character where it drops others, so an ASCII tag occurs in it exactly where it
-- occurs among the bytes.
pub mod Occurs
use Prim.Native.Char.{code}
use Prim.Native.String.{String}
use vulkan_cocoa_core.Common.{ℕ, List, [], ◌∷◌, Bool, true, false, ◌&&◌, ◌||◌, ◌==◌, if◌then◌else◌}
use vulkan_cocoa_core.Air.Syntax.{
  DetectedAirFeature, kernel_entry_point, vertex_entry_point, fragment_entry_point, compile_options,
  language_version, argument_buffer_usage,
}

-- The bytes of an ASCII text.
abbrev pub codes : String → List ℕ
codes String.[] = []
codes (String.◌∷◌ c s) = code c ∷ codes s

unfoldable pub starts_with : (tag haystack : List ℕ) → Bool
starts_with [] ys = true
starts_with (x ∷ xs) [] = false
starts_with (x ∷ xs) (y ∷ ys) = x == y && starts_with xs ys

-- `haystack.contains(tag)`
unfoldable pub contains : (tag haystack : List ℕ) → Bool
unfolding starts_with
contains tag [] = starts_with tag []
contains tag (y ∷ ys) = starts_with tag (y ∷ ys) || contains tag ys

unfoldable pub tags : List (List ℕ × DetectedAirFeature)
tags =
    (codes "air.kernel", kernel_entry_point)
    ∷ (codes "air.vertex", vertex_entry_point)
    ∷ (codes "air.fragment", fragment_entry_point)
    ∷ (codes "air.compile_options", compile_options)
    ∷ (codes "air.version", language_version)
    ∷ (codes "air.argument_buffer", argument_buffer_usage)
    ∷ []

-- The features of the table's tags that occur, in the table's order.
unfoldable pub features_in : List ℕ → List (List ℕ × DetectedAirFeature) → List DetectedAirFeature
unfolding contains
features_in body [] = []
features_in body ((tag, feature) ∷ ts) =
    let rest = features_in body ts in if contains tag body then feature ∷ rest else rest

unfoldable pub scan_known_air_tags : List ℕ → List DetectedAirFeature
unfolding features_in tags
scan_known_air_tags body = features_in body tags
