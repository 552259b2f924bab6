-- ===== src/Render/Tests.antt =====
-- The theorems on a window's swapchain at a concrete driver.
use vulkan_cocoa_core.Common.{
  ℕ, ◌≤◌, subst, zero, suc, ◌≡◌, refl, ap, ◌∙◌, List, [], ◌∷◌, none, some, true, false, sym, length,
  arith,
}
use vulkan_cocoa_core.Machine.{checked, err, panic, index_out_of_bounds}
use vulkan_cocoa_core.Device.Driver.{answer}
use vulkan_cocoa_core.Render.Display.{
  Extent, Display, Capabilities, zero_extent, fifo, b8g8r8a8_srgb, ready,
}
use vulkan_cocoa_core.Render.Context.Balanced.{Balanced}
use vulkan_cocoa_core.Render.Context.Balanced.Rebuilt.{Handles}
use vulkan_cocoa_core.Render.Context.Balanced.Life.{AllGone, Within}
use vulkan_cocoa_core.Render.Context.{Context}
use vulkan_cocoa_core.Render.Context.Leaves.{Leaves, Framed, Complete, Allocates, Ranged, Conforms}
use vulkan_cocoa_core.Render.Frame.{new, tick, submit_and_present}
use vulkan_cocoa_core.Render.Frame.Builds.{Acquires, Drawn}
use vulkan_cocoa_core.Render.Frame.Steps.{new-Leaves, tick-Leaves, submit_and_present-Leaves}
use vulkan_cocoa_core.Render.Frame.Session.{session, frame, resize, session-Balanced}
use vulkan_cocoa_core.Render.Frame.Minimized.{NoSize, tick-NoSize}

abbrev handles : ℕ → List ℕ
handles zero = []
handles (suc n) = suc n ∷ handles n

-- A surface of 8 by 6 pixels with two images.
abbrev pub display : Display
display = record {
  capabilities = λ n. answer (record {
    current_extent = record { width = 8; height = 6 };
    min_image_extent = record { width = 1; height = 1 };
    max_image_extent = record { width = 100; height = 100 };
    min_image_count = 1;
    max_image_count = 0;
  });
  formats = λ n. answer (record { format = b8g8r8a8_srgb; srgb_nonlinear = true } ∷ []);
  present_modes = λ n. answer (fifo ∷ []);
  create_swapchain = λ n info. answer 5;
  swapchain_images = λ n swapchain. answer (1 ∷ 2 ∷ []);
  create_image_view = λ n image. answer (suc n);
  create_render_pass = λ n format. answer (suc n);
  create_framebuffer = λ n pass view extent. answer (suc n);
  allocate_command_buffers = λ n count. answer (handles count);
  create_semaphore = λ n. answer (suc n);
  create_fence = λ n. answer (suc n);
  wait_for_fence = λ n fence. answer tt;
  fence_status = λ n fence. answer true;
  acquire_next_image = λ n swapchain semaphore. answer (1, false);
  reset_fence = λ n fence. answer tt;
  queue_submit = λ n cb fence. answer tt;
  queue_present = λ n swapchain i. answer false;
}

length-handles : (n : ℕ) → length (handles n) ≡ n
length-handles zero = refl
length-handles (suc n) = ap suc (length-handles n)

display-Allocates : Allocates display
display-Allocates n count cbs e =
    let same : cbs ≡ handles count = cc e in ap length same ∙ length-handles count

abbrev display_caps : Capabilities
display_caps = record {
  current_extent = record { width = 8; height = 6 };
  min_image_extent = record { width = 1; height = 1 };
  max_image_extent = record { width = 100; height = 100 };
  min_image_count = 1;
  max_image_count = 0;
}

display-Ranged : Ranged display
display-Ranged n caps e =
    let same : caps ≡ display_caps = cc e in
    subst
      (λ (c : Capabilities).
        (c.min_image_extent.width ≤ c.max_image_extent.width)
        × (c.min_image_extent.height ≤ c.max_image_extent.height))
      (sym same) (omega arith, omega arith)

pub display-Conforms : Conforms display
display-Conforms = record { allocates = display-Allocates; ranged = display-Ranged }

pub display-Acquires : Acquires display
display-Acquires n m swapchain semaphore i x images e f =
    let two : images ≡ 1 ∷ 2 ∷ [] = cc e in
    let one : i ≡ 1 = cc f in omega (arith, one, ap length two)

abbrev pub context : Context
context = record {
  calls = 40;
  log = [];
  swapchain = 5;
  images = 1 ∷ 2 ∷ [];
  image_views = 3 ∷ 4 ∷ [];
  framebuffers = 6 ∷ 7 ∷ [];
  render_pass = 8;
  command_buffers = 2 ∷ 1 ∷ [];
  frames =
      record { image_available = 1; render_finished = 2; in_flight = 3 }
      ∷ record { image_available = 4; render_finished = 5; in_flight = 6 }
      ∷ record { image_available = 7; render_finished = 8; in_flight = 9 }
      ∷ [];
  extent = record { width = 8; height = 6 };
  format = b8g8r8a8_srgb;
  current_frame = 2;
  state = ready;
  pending = none;
}

pub context-Complete : Complete display context
context-Complete = record {
  listed = (0, refl);
  views = refl;
  framebuffers = refl;
  command_buffers = refl;
  frames = refl;
  current = omega arith;
}

new-Leaves_example :
    Leaves (λ _. Complete display) Framed (new checked display (record { width = 8; height = 6 }))
new-Leaves_example = new-Leaves checked display display-Conforms (record { width = 8; height = 6 })

tick-Leaves_example : Leaves (Drawn display) Framed (tick checked display context)
tick-Leaves_example =
    tick-Leaves checked display display-Conforms context display-Acquires context-Complete

submit_and_present-Leaves_example :
    Leaves (λ _. Complete display) Framed (submit_and_present checked display 1 context)
submit_and_present-Leaves_example =
    submit_and_present-Leaves checked display display-Conforms 1 context (omega arith)
      context-Complete

-- The window was made so narrow that nothing of it is left.
abbrev flat_caps : Capabilities
flat_caps = record {
  current_extent = record { width = 0; height = 6 };
  min_image_extent = record { width = 1; height = 1 };
  max_image_extent = record { width = 100; height = 100 };
  min_image_count = 1;
  max_image_count = 0;
}

abbrev flat : Display
flat = record display { capabilities = λ n. answer flat_caps }

flat-NoSize : NoSize flat
flat-NoSize = record {
  caps = flat_caps;
  width = refl;
  format = record { format = b8g8r8a8_srgb; srgb_nonlinear = true };
  mode = fifo;
  image = 1;
  capabilities = λ n. refl;
  formats = λ n. refl;
  modes = λ n. refl;
  waits = λ n fence. refl;
  resets = λ n fence. refl;
  acquires = λ n swapchain semaphore. refl;
}

abbrev resized : Context
resized = record context { pending = some (record { width = 0; height = 6 }) }

tick-NoSize_example :
    ((tick checked flat resized).0 ≡ err zero_extent)
    × ((tick checked flat (tick checked flat resized).1).0 ≡ panic index_out_of_bounds)
tick-NoSize_example =
    tick-NoSize checked flat flat-NoSize (record { width = 0; height = 6 }) resized refl
      (omega arith)

display-Handles : Handles display
display-Handles = record { swapchain = λ n info e. absurd (cc); render_pass = λ n f e. absurd (cc) }

abbrev size : Extent
size = record { width = 8; height = 6 }

session-Balanced_example :
    Leaves
      (λ _ c. Complete display c × Balanced c × AllGone true c)
      (λ c. Framed c × Within true c)
      (session checked display size (frame ∷ resize size ∷ frame ∷ frame ∷ []))
session-Balanced_example =
    session-Balanced checked display display-Conforms display-Acquires display-Handles size
      (frame ∷ resize size ∷ frame ∷ frame ∷ [])
