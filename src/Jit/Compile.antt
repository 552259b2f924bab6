-- ===== src/Jit/Compile.antt =====
-- src/shader_jit/mod.rs: `ShaderJitContext`.
pub mod Words
use vulkan_cocoa_core.Common.{ℕ, ◌+◌, ◌*◌, List, [], ◌∷◌, Option, none, some}
use vulkan_cocoa_core.Machine.{Build, Run, ok, err, panic, out_of_fuel, bind}
use vulkan_cocoa_core.Air.Syntax.{AirParseError, AirModule}
use vulkan_cocoa_core.Air.Parse.{parse}
use vulkan_cocoa_core.Jit.Transforms
use vulkan_cocoa_core.Jit.Transforms.{AirTransformer, transform_module}

pub record ShaderJitContext : Type 0 where
  pub transformer : AirTransformer

unfoldable pub new : ShaderJitContext
unfolding Transforms.new
new = record { transformer = Transforms.new }

-- `chunks_exact(4)`, each chunk read by `u32::from_le_bytes`: the last bytes of an odd length are
-- left out.
unfoldable pub spirv_words : List ℕ → List ℕ
spirv_words (x₀ ∷ x₁ ∷ x₂ ∷ x₃ ∷ xs) = (x₀ + 256 * (x₁ + 256 * (x₂ + 256 * x₃))) ∷ spirv_words xs
spirv_words _ = []

-- `if !patches.is_empty() { Some(patches) } else { Some(dummy_spirv) }`
unfoldable pub patches_or_words : (patches bytecode : List ℕ) → List ℕ
unfolding spirv_words
patches_or_words [] bytecode = spirv_words bytecode
patches_or_words (p ∷ ps) bytecode = p ∷ ps

-- `parse(..).ok()?`: a parse error becomes `None`.
unfoldable pub ok_or_none : Run AirParseError AirModule → Run AirParseError (Option AirModule)
ok_or_none (ok m) = ok (some m)
ok_or_none (err e) = ok none
ok_or_none (panic p) = panic p
ok_or_none out_of_fuel = out_of_fuel

unfoldable pub compile_air_to_spirv :
    Build → ShaderJitContext → List ℕ → Run AirParseError (Option (List ℕ) × ShaderJitContext)
unfolding ok_or_none
compile_air_to_spirv b ctx air_bytecode = bind (ok_or_none (parse b air_bytecode)) λ parsed.
    elim parsed [
      | none ↦ ok (none, ctx)
      | some air_module ↦ bind (transform_module b ctx.transformer air_module) λ (t, result). ok (
        some (patches_or_words result.transformed_spirv_patches air_bytecode),
        record { transformer = t },
      )
    ]
