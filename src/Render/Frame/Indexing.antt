-- ===== src/Render/Frame/Indexing.antt =====
-- Indexing a list of the context.
use vulkan_cocoa_core.Common.{ℕ, ◌<◌, ◌≤◌, ◌≡◌, refl, List, length, get_elem?-some, get_elem?-none}
use vulkan_cocoa_core.Machine.{ok, panic, index_out_of_bounds}
use vulkan_cocoa_core.Machine.Stateful.{then_do}
use vulkan_cocoa_core.Render.Context.{Context, index}
use vulkan_cocoa_core.Render.Frame.{hand_out}

module _ {A : Type 0} (xs : List A) (i : ℕ) where
  pub index-ok : i < length xs → (x : A) × (index xs i ≡ ok x)
  index-ok h = let (x, e) = get_elem?-some xs i h in (x, rw (e, index) refl)

  index-panic : length xs ≤ i → index xs i ≡ panic index_out_of_bounds
  index-panic h = rw (get_elem?-none xs i h, index) refl

pub hand_out-panic :
    (i : ℕ) (c : Context)
    → length c.command_buffers ≤ i
    → (hand_out i c).0 ≡ panic index_out_of_bounds
unfolding hand_out
hand_out-panic i c h = rw (index-panic c.command_buffers i h, then_do) refl
