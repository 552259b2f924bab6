-- ===== src/Render/Context/Balanced/Life.antt =====
-- The life of the objects from `build_swapchain` to `drop`.
use vulkan_cocoa_core.Common.{
  ℕ, ◌+◌, ◌*◌, ◌≤◌, ◌≡◌, ◌≢◌, refl, ap, ◌∙◌, List, [], ◌∷◌, Bool, length, arith,
}
use native.Mathlib.Nat.{mul-suc}
use vulkan_cocoa_core.Machine.{Build, Run, ok, err, panic, out_of_fuel, Panic}
use vulkan_cocoa_core.Render.Display.{SwapchainError, Display}
use vulkan_cocoa_core.Render.Objects.{
  Kind, swapchain_object, view_object, pass_object, framebuffer_object, buffer_object,
  semaphore_object, fence_object, destroyed, idle, Log, destroy_some, created, gone,
}
use vulkan_cocoa_core.Render.Context.{
  FrameSync, Context, choices, destroy_swapchain_resources, build_swapchain, destroy_frames,
  drop_context,
}
use vulkan_cocoa_core.Render.Context.Leaves.{Leaves, Ranged, returns, fails, overflows}
use vulkan_cocoa_core.Render.Context.WellFormed.{choose_image_count-Ensures}
use vulkan_cocoa_core.Render.Context.Balanced.{held, Balanced, Grows, destroy_some-Grows}
use vulkan_cocoa_core.Render.Context.Balanced.Views.{weight, total, Level, Covers}
use vulkan_cocoa_core.Render.Context.Balanced.Rebuilt.{Handles, destroy-Grows, build_by-Level}

-- The sum over the kinds, for each kind.
held-total : (k : Kind) (c : Context) → total k c ≡ held k c
held-total swapchain_object c = omega arith
held-total view_object c = omega arith
held-total pass_object c = omega arith
held-total framebuffer_object c = omega arith
held-total buffer_object c = omega arith
held-total semaphore_object c = omega arith
held-total fence_object c = omega arith

destroy_frames-Grows :
    (k : Kind) (fs : List FrameSync) (log : Log)
    → Grows k log (destroy_frames fs log) 0 (weight k * length fs)
destroy_frames-Grows k [] log = record { up = omega arith; down = omega arith }
destroy_frames-Grows k (f ∷ fs) log =
    let rest = destroy_frames-Grows k fs (
      destroyed fence_object f.in_flight
      ∷ destroyed semaphore_object f.render_finished
      ∷ destroyed semaphore_object f.image_available
      ∷ log) in
    record {
      up = omega (arith, rest.up);
      down = rest.down ∙ rw (mul-suc (weight k) (length fs)) (omega arith);
    }

pub Level-Balanced : (c : Context) → ((k : Kind) → Level k c) → Balanced c
Level-Balanced c level k = level k ∙ ap (λ n. gone k c.log + n) (held-total k c)

-- Nothing that was made is left when the context is dropped.
abbrev pub AllGone : (waits : Bool) → Context → Type 0
AllGone waits c = (k : Kind) → created k (drop_context waits c) ≡ gone k (drop_context waits c)

-- When the context is dropped, no more objects of a kind are destroyed than were made.
abbrev pub Within : (waits : Bool) → Context → Type 0
Within waits c = (k : Kind) → gone k (drop_context waits c) ≤ created k (drop_context waits c)

-- What dropping adds to the log.
drop_context-Grows :
    (k : Kind) (waits : Bool) (c : Context) → Grows k c.log (drop_context waits c) 0 (total k c)
unfolding drop_context destroy_swapchain_resources
drop_context-Grows k waits c =
    let c₀ : Context = record c { log = idle ∷ c.log } in
    let c₁ : Context = destroy_swapchain_resources waits c₀ in
    let l : Log = destroy_some swapchain_object c.swapchain c₁.log in
    let g₁ = destroy-Grows k waits c₀ in
    let g₂ = destroy_some-Grows k swapchain_object c.swapchain c₁.log in
    let g₃ = destroy_frames-Grows k c.frames l in
    record {
      up = omega (arith, g₁.up, g₂.up, g₃.up);
      down = omega (arith, g₁.down, g₂.down, g₃.down);
    }

pub drop_context-AllGone : (waits : Bool) (c : Context) → ((k : Kind) → Level k c) → AllGone waits c
drop_context-AllGone waits c level k =
    let g = drop_context-Grows k waits c in omega (arith, level k, g.up, g.down)

pub drop_context-Within : (waits : Bool) (c : Context) → ((k : Kind) → Covers k c) → Within waits c
drop_context-Within waits c covers k =
    let g = drop_context-Grows k waits c in omega (arith, covers k, g.up, g.down)

module _ {A : Type 0} {P R : Context → Type 0} where
  Leaves-ok : {a : A} {c : Context} → Leaves (λ _. P) R (ok a, c) → P c
  Leaves-ok (returns p) = p

  Leaves-err : {e : SwapchainError} {c : Context} → Leaves {A = A} (λ _. P) R (err e, c) → R c
  Leaves-err (fails r) = r

  Leaves-panic :
      {Q S : Context → Type 0} {p : Panic} {c : Context}
      → Leaves {A = A} (λ _. P) R (panic p, c)
      → Leaves {A = A} (λ _. Q) S (panic p, c)
  Leaves-panic overflows = overflows

  Leaves-out_of_fuel :
      {r : Run SwapchainError A × Context} → Leaves (λ _. P) R r → r.0 ≢ out_of_fuel
  Leaves-out_of_fuel (returns p) = cc
  Leaves-out_of_fuel (fails p) = cc
  Leaves-out_of_fuel overflows = cc

-- What holds of each kind holds of all.
Leaves-all :
    {A : Type 0} {Q R : Kind → Context → Type 0} (r : Run SwapchainError A × Context)
    → ((k : Kind) → Leaves (λ _. Q k) (R k) r)
    → Leaves (λ _ c. (k : Kind) → Q k c) (λ c. (k : Kind) → R k c) r
Leaves-all (ok a, c) h = returns λ k. Leaves-ok (h k)
Leaves-all (err e, c) h = fails λ k. Leaves-err (h k)
Leaves-all (panic p, c) h = Leaves-panic (h swapchain_object)
Leaves-all (out_of_fuel, c) h = absurd (Leaves-out_of_fuel (h swapchain_object) refl)

pub build_swapchain-Level :
    (b : Build) (d : Display) (want_w want_h : ℕ) (c : Context)
    → Ranged d
    → Handles d
    → ((k : Kind) → Level k c)
    → Leaves
        (λ _ c'. (k : Kind) → Level k c')
        (λ c'. (k : Kind) → Covers k c')
        (build_swapchain b d want_w want_h c)
unfolding build_swapchain
build_swapchain-Level b d want_w want_h c ranged real level = Leaves-all _ λ k.
    build_by-Level k choices b d want_w want_h c (λ mode caps. choose_image_count-Ensures b caps)
      ranged real (level k)
