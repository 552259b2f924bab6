-- ===== src/Device/Queues.antt =====
-- `pick_queue_families` of src/vulkan_backend/mod.rs. A device has fewer than 2 ^ 32 queue families,
-- so `i as u32` is `i`.
pub mod First
use vulkan_cocoa_core.Common.{
  ℕ, ◌+◌, List, [], ◌∷◌, Option, none, some, Bool, true, ◌&&◌, not, if◌then◌else◌,
}
use vulkan_cocoa_core.Device.Driver.{Driver, QueueFamily, unwrap_or_false}

pub record QueueFamilyIndices : Type 0 where
  pub graphics : ℕ
  pub transfer : ℕ
  pub graphics_supports_present : Bool

-- The two local variables of the loop.
pub record Picked : Type 0 where
  pub best_graphics : Option (ℕ × Bool)
  pub dedicated_transfer : Option ℕ

-- Without a surface, every family can present.
unfoldable pub supports_present : Driver → (pdevice : ℕ) → Option ℕ → (idx : ℕ) → Bool
supports_present d pdevice none idx = true
supports_present d pdevice (some surf) idx = unwrap_or_false (d.surface_support pdevice idx surf)

unfoldable pub is_better : Option (ℕ × Bool) → (supports : Bool) → Bool
is_better none supports = true
is_better (some (idx, prev_present)) supports = supports && not prev_present

unfoldable pub is_none : {A : Type 0} → Option A → Bool
is_none none = true
is_none (some a) = Bool.false

unfoldable pub pick_round : (present : ℕ → Bool) → (idx : ℕ) → QueueFamily → Picked → Picked
unfolding is_better is_none
pick_round present idx fam p = record {
  best_graphics =
      if fam.graphics && is_better p.best_graphics (present idx)
      then some (idx, present idx)
      else p.best_graphics;
  dedicated_transfer =
      if fam.transfer && not fam.graphics && not fam.compute && is_none p.dedicated_transfer
      then some idx
      else p.dedicated_transfer;
}

-- The loop over the families, from the index `idx` on.
unfoldable pub pick_loop : (present : ℕ → Bool) → (idx : ℕ) → List QueueFamily → Picked → Picked
unfolding pick_round
pick_loop present idx [] p = p
pick_loop present idx (fam ∷ fams) p =
    pick_loop present (idx + 1) fams (pick_round present idx fam p)

unfoldable pub unwrap_or : {A : Type 0} → A → Option A → A
unwrap_or a none = a
unwrap_or a (some x) = x

unfoldable pub indices_of : Picked → Option QueueFamilyIndices
unfolding unwrap_or
indices_of p = elim p.best_graphics [
  | none ↦ none
  | some (graphics, present) ↦ some (record {
    graphics = graphics;
    transfer = unwrap_or graphics p.dedicated_transfer;
    graphics_supports_present = present;
  })
]

unfoldable pub pick_queue_families : Driver → (pdevice : ℕ) → Option ℕ → Option QueueFamilyIndices
unfolding pick_loop indices_of
pick_queue_families d pdevice surface = indices_of (
    pick_loop (supports_present d pdevice surface) 0 (d.queue_families pdevice)
      (record { best_graphics = none; dedicated_transfer = none }))
