-- ===== src/Device/Select.antt =====
-- `score_candidate` and `select_physical_device` of src/vulkan_backend/mod.rs. A score is never
-- negative, so it is a natural number here; log messages are left out.
pub mod Score
pub mod Collected
pub mod Best
use vulkan_cocoa_core.Common.{
  ℕ, ◌+◌, ◌*◌, ◌/◌, List, [], ◌∷◌, Option, none, some, Bool, true, false, ◌&&◌, ◌||◌, not, take,
  leb, if◌then◌else◌,
}
use vulkan_cocoa_core.Machine.{Build, Run, ok, err, bind, u64_add}
use vulkan_cocoa_core.Device.Driver.{
  Driver, Answer, answer, failed, DeviceSelectionError, no_devices, no_suitable_device, DeviceType,
  discrete_gpu, integrated_gpu, virtual_gpu, cpu, other, MemoryHeap, Features, try_vk,
  has_extension, required_device_extensions, preferred_device_extensions,
}
use vulkan_cocoa_core.Device.Queues.{QueueFamilyIndices, pick_queue_families}

pub record Candidate : Type 0 where
  pub physical_device : ℕ
  pub score : ℕ
  pub name : List ℕ
  pub queues : QueueFamilyIndices
  pub available_extensions : List (List ℕ)

unfoldable pub type_score : DeviceType → ℕ
type_score discrete_gpu = 100000
type_score integrated_gpu = 10000
type_score virtual_gpu = 1000
type_score cpu = 100
type_score other = 0

-- `.filter(..).map(|h| h.size).sum()` on `u64`, with what was summed before.
unfoldable pub local_bytes : {E : Type 0} → Build → ℕ → List MemoryHeap → Run E ℕ
local_bytes b total [] = ok total
local_bytes b total (h ∷ hs) =
    if h.device_local
    then (bind (u64_add b total h.size) λ total'. local_bytes b total' hs)
    else local_bytes b total hs

unfoldable pub feature_score : Features → ℕ
feature_score f =
    (if f.sampler_anisotropy then 500 else 0)
    + (if f.shader_storage_image_extended_formats then 200 else 0)
    + (if f.geometry_shader then 100 else 0)
    + (if f.tessellation_shader then 100 else 0)

-- 1,500 for each preferred extension that the device has.
unfoldable pub extension_score : (preferred extensions : List (List ℕ)) → ℕ
extension_score [] extensions = 0
extension_score (ext ∷ exts) extensions =
    (if has_extension ext extensions then 1500 else 0) + extension_score exts extensions

unfoldable pub score_candidate :
    {E : Type 0} → Build → Driver → (pdevice : ℕ) → List (List ℕ) → Run E ℕ
unfolding type_score feature_score extension_score
score_candidate b d pdevice extensions =
    let mem_props = d.memory_properties pdevice in
    bind (local_bytes b 0 (take mem_props.memory_heap_count mem_props.memory_heaps))
      λ device_local_bytes. ok (
        type_score (d.properties pdevice).device_type
        + device_local_bytes / (64 * 1024 * 1024)
        + (d.properties pdevice).max_image_dimension2_d / 64
        + feature_score (d.features pdevice)
        + extension_score preferred_device_extensions extensions)

-- `REQUIRED_DEVICE_EXTENSIONS.iter().any(|req| !extensions.contains(req))`
unfoldable pub any_missing : (required extensions : List (List ℕ)) → Bool
any_missing [] extensions = false
any_missing (req ∷ reqs) extensions =
    not (has_extension req extensions) || any_missing reqs extensions

unfoldable pub is_some : {A : Type 0} → Option A → Bool
is_some none = false
is_some (some a) = true

-- The part of a round behind the choice of queues.
unfoldable pub scored :
    {E : Type 0}
    → Build
    → Driver
    → Option ℕ
    → (pdevice : ℕ) → List (List ℕ)
    → QueueFamilyIndices
    → Run E (Option Candidate)
scored b d surface pdevice extensions queues =
    if is_some surface && not queues.graphics_supports_present
    then ok none
    else bind (score_candidate b d pdevice extensions) λ score. ok (
        some (record {
          physical_device = pdevice;
          score = score;
          name = (d.properties pdevice).device_name;
          queues = queues;
          available_extensions = extensions;
        }))

-- One round of the loop; `none` is a `continue`.
unfoldable pub consider :
    {E : Type 0} → Build → Driver → Option ℕ → (pdevice : ℕ) → Run E (Option Candidate)
unfolding any_missing scored
consider b d surface pdevice = elim (d.extensions pdevice) [
  | failed e ↦ ok none
  | answer extensions ↦
      if any_missing required_device_extensions extensions
      then ok none
      else elim (pick_queue_families d pdevice surface) [
        | none ↦ ok none
        | some queues ↦ scored b d surface pdevice extensions queues
      ]
]

unfoldable pub push_some : Option Candidate → List Candidate → List Candidate
push_some none cs = cs
push_some (some c) cs = c ∷ cs

-- The loop over the devices.
unfoldable pub candidates :
    {E : Type 0} → Build → Driver → Option ℕ → List ℕ → Run E (List Candidate)
unfolding push_some
candidates b d surface [] = ok []
candidates b d surface (pdevice ∷ pdevices) =
    bind (consider b d surface pdevice)
      λ c. bind (candidates b d surface pdevices) λ cs. ok (push_some c cs)

-- `max_by_key(|c| c.score)`: of several candidates with the highest score, the last.
unfoldable pub max_from : Candidate → List Candidate → Candidate
max_from best [] = best
max_from best (c ∷ cs) = if leb best.score c.score then max_from c cs else max_from best cs

unfoldable pub max_by_score : List Candidate → Option Candidate
unfolding max_from
max_by_score [] = none
max_by_score (c ∷ cs) = some (max_from c cs)

-- `ok_or(NoSuitableDevice)`
unfoldable pub ok_or_unsuitable : Option Candidate → Run DeviceSelectionError Candidate
ok_or_unsuitable none = err no_suitable_device
ok_or_unsuitable (some c) = ok c

-- The tuple that the function returns is the part of a candidate without its score.
unfoldable pub select_physical_device :
    Build → Driver → Option ℕ → Run DeviceSelectionError Candidate
unfolding try_vk candidates max_by_score ok_or_unsuitable
select_physical_device b d surface = bind (try_vk d.enumerate_physical_devices) λ pdevices.
    elim pdevices [
      | [] ↦ err no_devices
      | p ∷ ps ↦ bind (candidates b d surface (p ∷ ps)) λ cs. ok_or_unsuitable (max_by_score cs)
    ]
