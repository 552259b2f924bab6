-- ===== src/Jit/Compile/Words.antt =====
-- On what `compile_air_to_spirv` of src/shader_jit/mod.rs returns.
use vulkan_cocoa_core.Common.{
  ℕ, suc, ◌+◌, ◌*◌, ◌/◌, ◌%◌, ◌<◌, ◌≡◌, refl, List, [], ◌∷◌, ◌++◌, Option, none, some, length, take,
  arith,
}
use vulkan_cocoa_core.Machine.{Build, ok, err, panic, out_of_fuel, Run}
use vulkan_cocoa_core.Machine.Ensures.{Ensures, holds, panics, Ensures-bind, Ensures-ok}
use vulkan_cocoa_core.Air.Syntax.{AirModule, AirParseError}
use vulkan_cocoa_core.Air.Reader.Number.{IsBytes}
use vulkan_cocoa_core.Air.Locate.Found.{le_bytes}
use vulkan_cocoa_core.Air.Parse.{parse}
use vulkan_cocoa_core.Air.Parse.Ends.{parse-ne-out_of_fuel}
use vulkan_cocoa_core.Jit.Transforms.Barrier.{transform-Noted}
use vulkan_cocoa_core.Jit.Compile.{
  ShaderJitContext, spirv_words, patches_or_words, ok_or_none, compile_air_to_spirv,
}

-- The words as bytes, in little-endian order.
unfoldable pub bytes_of_words : List ℕ → List ℕ
bytes_of_words [] = []
bytes_of_words (w ∷ ws) = le_bytes w ++ bytes_of_words ws

le_bytes-word :
    (a b c d : ℕ)
    → a < 256
    → b < 256
    → c < 256
    → d < 256
    → le_bytes (a + 256 * (b + 256 * (c + 256 * d))) ≡ a ∷ b ∷ c ∷ d ∷ []
unfolding le_bytes
le_bytes-word a b c d p q r t =
    let w = a + 256 * (b + 256 * (c + 256 * d)) in
    let e₀ : w % 256 ≡ a = omega arith in
    let e₁ : w / 256 % 256 ≡ b = omega arith in
    let e₂ : w / 256 / 256 % 256 ≡ c = omega arith in
    let e₃ : w / 256 / 256 / 256 % 256 ≡ d = omega arith in cc (e₀, e₁, e₂, e₃)

-- The words spell the input again, up to the last whole word.
pub bytes_of_words-spirv_words :
    (xs : List ℕ) → IsBytes xs → bytes_of_words (spirv_words xs) ≡ take (4 * (length xs / 4)) xs
unfolding bytes_of_words spirv_words
bytes_of_words-spirv_words [] bs = refl
bytes_of_words-spirv_words (a ∷ []) bs = refl
bytes_of_words-spirv_words (a ∷ b ∷ []) bs = refl
bytes_of_words-spirv_words (a ∷ b ∷ c ∷ []) bs = refl
bytes_of_words-spirv_words (a ∷ b ∷ c ∷ d ∷ xs) bs =
    let whole = bytes_of_words-spirv_words xs bs.1.1.1.1 in
    let n : 4 * (suc (suc (suc (suc (length xs)))) / 4)
        ≡ suc (suc (suc (suc (4 * (length xs / 4))))) =
      omega arith in
    rw (n, le_bytes-word a b c d bs.0 bs.1.0 bs.1.1.0 bs.1.1.1.0, whole)

-- The result by cases of the parse.
abbrev pub Compiled : Run AirParseError AirModule → List ℕ → Option (List ℕ) → Type 0
Compiled parsed xs none = (e : AirParseError) × (parsed ≡ err e)
Compiled parsed xs (some ws) = (m : AirModule) × (parsed ≡ ok m) × (ws ≡ spirv_words xs)

-- A compilation that ends returns nothing where the parser reports an error, and otherwise the
-- words of the input as they are: no instruction is translated.
pub compile_air_to_spirv-words :
    (b : Build) (ctx : ShaderJitContext) (xs : List ℕ) {out : Option (List ℕ)}
    {ctx' : ShaderJitContext}
    → compile_air_to_spirv b ctx xs ≡ ok (out, ctx')
    → Compiled (parse b xs) xs out
unfolding compile_air_to_spirv ok_or_none patches_or_words
compile_air_to_spirv-words b ctx xs e = Ensures-ok (split (parse b xs) refl) e
  where
    split :
        (r : Run AirParseError AirModule)
        → parse b xs ≡ r
        → Ensures
            (λ _. Unit {0})
            (λ (out, _). Compiled (parse b xs) xs out)
            (compile_air_to_spirv b ctx xs)
    split (ok m) e = rw e (
        Ensures-bind (transform-Noted b ctx.transformer m)
          λ (t, result) n. holds (m, refl, rw (n.patches)))
    split (err x) e = rw e (holds (x, refl))
    split (panic p) e = rw e (panics tt)
    split out_of_fuel e = absurd (parse-ne-out_of_fuel b xs e)
