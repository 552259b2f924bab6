-- ===== src/Device/Select/Score.antt =====
-- The size of a score.
use vulkan_cocoa_core.Common.{ℕ, ◌+◌, ◌≤◌, ◌<◌, ◌^◌, ◌≡◌, refl, List, [], ◌∷◌, ltb, arith, take}
use vulkan_cocoa_core.Machine.{Build, add_overflow, u64_add}
use vulkan_cocoa_core.Machine.Certain.{Certain, sure, Certain-if, Certain-bind, overflow-Certain}
use vulkan_cocoa_core.Device.Driver.{
  Driver, MemoryHeap, Features, DeviceType, discrete_gpu, integrated_gpu, virtual_gpu, cpu, other,
  preferred_device_extensions,
}
use vulkan_cocoa_core.Device.Select.{
  local_bytes, type_score, feature_score, extension_score, score_candidate,
}

local_bytes-lt :
    {E : Type 0} (b : Build) (total : ℕ) (hs : List MemoryHeap)
    → total < 2 ^ 64
    → Certain (λ p. p ≡ add_overflow) (λ v. v < 2 ^ 64) (local_bytes {E = E} b total hs)
unfolding local_bytes u64_add
local_bytes-lt b total [] h = sure h
local_bytes-lt b total (x ∷ hs) h =
    Certain-if x.device_local
      (λ _.
        Certain-bind
          (Certain-if (ltb (total + x.size) (2 ^ 64)) (λ lt. sure (ground arith))
            (λ _. overflow-Certain b add_overflow _ refl (omega arith)))
          λ total' k. local_bytes-lt b total' hs k)
      (λ _. local_bytes-lt b total hs h)

type_score-le : (t : DeviceType) → type_score t ≤ 100000
unfolding type_score
type_score-le discrete_gpu = omega arith
type_score-le integrated_gpu = omega arith
type_score-le virtual_gpu = omega arith
type_score-le cpu = omega arith
type_score-le other = omega arith

feature_score-le : (f : Features) → feature_score f ≤ 900
unfolding feature_score
feature_score-le f = ground arith

extension_score-le :
    (exts : List (List ℕ)) → extension_score preferred_device_extensions exts ≤ 6000
unfolding extension_score
extension_score-le exts = ground arith

-- For a device whose maximal image dimension is below 2 ^ 32, scoring panics at most by an overflow of
-- the sum of the heaps, and otherwise gives a score below 2 ^ 63.
pub score_candidate-lt :
    {E : Type 0} (b : Build) (d : Driver) (pdevice : ℕ) (extensions : List (List ℕ))
    → (d.properties pdevice).max_image_dimension2_d < 2 ^ 32
    → Certain
        (λ p. p ≡ add_overflow)
        (λ score. score < 2 ^ 63)
        (score_candidate {E = E} b d pdevice extensions)
unfolding score_candidate
score_candidate-lt b d pdevice extensions h =
    let m = d.memory_properties pdevice in
    Certain-bind (local_bytes-lt b 0 (take m.memory_heap_count m.memory_heaps) (omega arith))
      λ bytes lt. sure (
        omega (
          arith,
          type_score-le (d.properties pdevice).device_type,
          feature_score-le (d.features pdevice),
          extension_score-le extensions,
        ))

-- Any score is computed but for such an overflow.
pub score_candidate-ends :
    {E : Type 0} (b : Build) (d : Driver) (pdevice : ℕ) (extensions : List (List ℕ))
    → Certain
        (λ p. p ≡ add_overflow)
        (λ _. Unit {0})
        (score_candidate {E = E} b d pdevice extensions)
unfolding score_candidate
score_candidate-ends b d pdevice extensions =
    let m = d.memory_properties pdevice in
    Certain-bind (local_bytes-lt b 0 (take m.memory_heap_count m.memory_heaps) (omega arith))
      λ bytes lt. sure tt
