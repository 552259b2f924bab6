-- ===== src/Gl/Tests.antt =====
-- The theorems on OpenGL buffers at a concrete device.
use vulkan_cocoa_core.Common.{refl, List, [], ◌∷◌, none, some, true, false, length, arith, suc}
use vulkan_cocoa_core.Machine.{checked}
use vulkan_cocoa_core.Machine.Certain.{Certain}
use vulkan_cocoa_core.Device.Driver.{answer}
use vulkan_cocoa_core.Gl.Types.{new, Gpu, GlState}
use vulkan_cocoa_core.Gl.Draw.{
  Command, gen_buffers, bind_buffer, buffer_data, delete_buffers, run_all,
}
use vulkan_cocoa_core.Gl.Balance.{Balanced, created, destroyed, allocated, freed, occupied}
use vulkan_cocoa_core.Gl.Balance.Commands.{NonNull}
use vulkan_cocoa_core.Gl.Balance.Program.{run_all-Balanced}

-- Each handle is the number of the calls before it and one more.
abbrev device : Gpu
device = record {
  new_buffer = λ calls size usage. answer (suc (length calls));
  requirements = λ buffer. record { size = 256; memory_type_bits = 3 };
  host_coherent = false ∷ true ∷ [];
  new_memory = λ calls size t. answer (suc (length calls));
  bind_memory = λ buffer memory. answer tt;
  map_memory = λ memory offset size. answer tt;
}

device-NonNull : NonNull device
device-NonNull calls size usage h e = grind arith

abbrev start : GlState
start = record { context = new; calls = [] }

start-Balanced : Balanced start
unfolding new created destroyed allocated freed occupied
start-Balanced = record { buffers = refl; memories = refl; ids = tt }

abbrev commands : List Command
commands =
    gen_buffers 2 false
    ∷ bind_buffer 0x8892 1
    ∷ buffer_data 0x8892 4 (some (1 ∷ 2 ∷ 3 ∷ 4 ∷ []))
    ∷ buffer_data 0x8892 8 none
    ∷ delete_buffers (some (1 ∷ 2 ∷ []))
    ∷ []

run_all-Balanced_example :
    Certain {E = ⊥} (λ _. Unit {0}) Balanced (run_all checked (some device) commands start)
run_all-Balanced_example = run_all-Balanced device device-NonNull commands start start-Balanced
