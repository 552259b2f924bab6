-- ===== src/Render/Resize/Refines.antt =====
-- `PendingResize` as the optional size that the context's model keeps, where `request` and `take` do
-- not overlap; and what `take` may return where they do.
use vulkan_cocoa_core.Common.{
  ℕ, ◌≡◌, refl, ◌∙◌, [], ◌∷◌, Bool, true, false, Option, some, none, if◌then◌else◌,
}
use vulkan_cocoa_core.Render.Display.{Extent}
use vulkan_cocoa_core.Render.Context.{Context}
use vulkan_cocoa_core.Render.Frame.{request_resize}
use vulkan_cocoa_core.Render.Resize.{
  PendingResize, default, request, take, width_stored, free, System, store_width, store_height,
  store_flag, swap_flag, load_width, load_height, Reach, starts, requests, takes,
}
use vulkan_cocoa_core.Render.Resize.Settled.{LastTaken}

-- The size that the variables hold.
abbrev pub held : PendingResize → Option Extent
held p = if p.flag then some (record { width = p.width; height = p.height }) else none

-- The variables hold what the context has pending.
abbrev pub Represents : PendingResize → Context → Type 0
Represents p c = held p ≡ c.pending

take-held :
    (flag : Bool) (width height : ℕ)
    → ((take (record { flag = flag; width = width; height = height })).0
        ≡ held (record { flag = flag; width = width; height = height }))
      × (held (take (record { flag = flag; width = width; height = height })).1 ≡ none)
unfolding take
take-held true width height = (refl, refl)
take-held false width height = (refl, refl)

-- Variables that hold what a context has pending still do so after a request of both; and `take`
-- returns what is pending and leaves variables that hold nothing.
pub request-take-Represents :
    (p : PendingResize) (c : Context) (e : Extent)
    → Represents p c
    → Represents (request e p) (request_resize e c)
      × ((take p).0 ≡ c.pending)
      × Represents (take p).1 (record c { pending = none })
unfolding request request_resize
request-take-Represents p c e is =
    let (taken, left) = take-held p.flag p.width p.height in (refl, taken ∙ is, left)

module _ (e e' : Extent) where
  abbrev torn : System
  torn = record {
    cell = record { flag = false; width = e'.width; height = e.height };
    requester = width_stored e';
    taker = free;
    requested = e' ∷ e ∷ [];
    taken = record { width = e'.width; height = e.height } ∷ [];
  }

  -- For any two sizes, some order of the steps, in which these two are requested one after the other
  -- and nothing else is, leads `take` to return the width of the second with the height of the first.
  pub take-torn :
      (s : System) × Reach s
      × (s.requested ≡ e' ∷ e ∷ [])
      × LastTaken s (record { width = e'.width; height = e.height })
  unfolding default
  take-torn =
      let r₁ = requests starts (store_width e refl) in
      let r₂ = requests r₁ (store_height e refl) in
      let r₃ = requests r₂ (store_flag e refl) in
      let r₄ = takes r₃ (swap_flag refl refl) in
      let r₅ = requests r₄ (store_width e' refl) in
      let r₆ = takes r₅ (load_width refl) in
      let r₇ = takes r₆ (load_height e'.width refl) in (torn, r₇, refl, ([], refl))
