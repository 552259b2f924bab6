-- ===== src/Device/Logical/Request.antt =====
-- What is asked of the driver for the logical device.
use mathlib.Core.List.{Memᴰ}
use mathlib.Core.List.Memᴰ
use mathlib.Core.List.Memᴰ.{head, tail}
use vulkan_cocoa_core.Common.{
  ℕ, ◌≡◌, ◌≢◌, refl, subst, List, [], ◌∷◌, Option, true, ◌==◌, arith, Bool-cases, inl, inr,
}
use vulkan_cocoa_core.Machine.{Build, ok}
use vulkan_cocoa_core.Device.Driver.{
  Driver, DeviceCreateInfo, has_extension, ext_swapchain, preferred_device_extensions,
}
use vulkan_cocoa_core.Device.Queues.{QueueFamilyIndices}
use vulkan_cocoa_core.Device.Select.{Candidate, select_physical_device}
use vulkan_cocoa_core.Device.Select.Best.{Outcome, select_physical_device-Outcome}
use vulkan_cocoa_core.Device.Logical.{
  queue_create_infos, available, enabled_extensions, enabled_features, device_create_info,
}

-- All elements of a list differ.
abbrev pub Distinct : List ℕ → Type 0
Distinct [] = Unit
Distinct (x ∷ xs) = ((y : ℕ) → Memᴰ y xs → x ≢ y) × Distinct xs

-- The request is one that the driver accepts by Vulkan's rules: each queue family is named once,
-- and each extension is one that the device has.
pub record Valid (d : Driver) (c : Candidate) (info : DeviceCreateInfo) : Type 0 where
  pub families : Distinct info.queue_families
  pub graphics : Memᴰ c.queues.graphics info.queue_families
  pub transfer : Memᴰ c.queues.transfer info.queue_families
  pub extensions :
      (ext : List ℕ)
      → Memᴰ ext info.enabled_extension_names
      → has_extension ext c.available_extensions ≡ true
  pub swapchain : Memᴰ ext_swapchain info.enabled_extension_names
  pub anisotropy :
      info.enabled_features.sampler_anisotropy ≡ (d.features c.physical_device).sampler_anisotropy

available-has :
    (exts extensions : List (List ℕ)) (ext : List ℕ)
    → Memᴰ ext (available exts extensions)
    → has_extension ext extensions ≡ true
unfolding available
available-has [] extensions ext m = absurd (Memᴰ.not-nil m)
available-has (x ∷ xs) extensions ext m = elim (Bool-cases (has_extension x extensions)) [
  | inl there ↦ elim (Memᴰ.cases_cons (rw there at m)) [
    | inl e ↦ rw e there
    | inr m' ↦ available-has xs extensions ext m'
  ]
  | inr missing ↦ available-has xs extensions ext (rw missing at m)
]

-- Each family is asked for once, and both are.
pub record Families (q : QueueFamilyIndices) (fams : List ℕ) : Type 0 where
  pub distinct : Distinct fams
  pub graphics : Memᴰ q.graphics fams
  pub transfer : Memᴰ q.transfer fams

queue_create_infos-Families : (q : QueueFamilyIndices) → Families q (queue_create_infos q)
unfolding queue_create_infos
queue_create_infos-Families q = elim (Bool-cases (q.transfer == q.graphics)) [
  | inl same ↦ rw same (record {
    distinct = (λ y m. absurd (Memᴰ.not-nil m), tt);
    graphics = head refl;
    transfer = head (ground (arith, same));
  })
  | inr other ↦ rw other (record {
    distinct = (
      λ y m. elim (Memᴰ.cases_cons m) [
        | inl e ↦ λ f. ground (arith, other, e, f)
        | inr m' ↦ absurd (Memᴰ.not-nil m')
      ],
      (λ y m. absurd (Memᴰ.not-nil m), tt),
    );
    graphics = head refl;
    transfer = tail (head refl);
  })
]

-- What is asked for a device that was selected names each queue family once, both of its families
-- among them, and only extensions that the device has, the swapchain extension among them.
pub device_create_info-Valid :
    (b : Build) (d : Driver) (surface : Option ℕ) {c : Candidate}
    → select_physical_device b d surface ≡ ok c
    → Valid d c (device_create_info d c.physical_device c.queues c.available_extensions)
unfolding device_create_info enabled_extensions enabled_features
device_create_info-Valid b d surface {c} e =
    let (ps, listed, at, is, most) =
      subst (Outcome b d surface) e (select_physical_device-Outcome b d surface) in
    let fams = queue_create_infos-Families c.queues in
    record {
      families = fams.distinct;
      graphics = fams.graphics;
      transfer = fams.transfer;
      extensions = λ ext m. elim (Memᴰ.cases_cons m) [
        | inl same ↦ rw same is.swapchain
        | inr m' ↦ available-has preferred_device_extensions c.available_extensions ext m'
      ];
      swapchain = head refl;
      anisotropy = refl;
    }
