-- ===== src/Render/Context.antt =====
-- `WindowRenderContext` of src/vulkan_backend/state_machine.rs. An error leaves the context as far as
-- it was changed, so a method returns the context beside its result, whatever that is.
pub mod Leaves
pub mod WellFormed
pub mod Balanced
use vulkan_cocoa_core.Common.{
  ℕ, zero, suc, ◌+◌, ◌%◌, List, [], ◌∷◌, Option, none, some, Bool, true, false, ◌||◌, ◌==◌, length,
  get_elem?, if◌then◌else◌,
}
use vulkan_cocoa_core.Machine.{Build, Run, ok, err, panic, out_of_fuel, index_out_of_bounds, bind}
use vulkan_cocoa_core.Machine.Stateful.{Stateful, then_do, ◌>>=◌, ◌>>◌, pure, fail, modify, lift}
use vulkan_cocoa_core.Device.Driver.{Answer, answer, failed}
use vulkan_cocoa_core.Render.Display.{
  max_frames_in_flight, error_out_of_date, suboptimal, SwapchainError, vk, no_surface_formats,
  no_present_modes, zero_extent, WindowRenderState, uninitialized, ready, recreating, Extent,
  Capabilities, Format, other_format, SurfaceFormat, PresentMode, Display,
}
use vulkan_cocoa_core.Render.Objects.{
  Kind, swapchain_object, view_object, pass_object, framebuffer_object, buffer_object,
  semaphore_object, fence_object, made, destroyed, idle, Log, destroy_all, destroy_some, made_all,
  wait_idle,
}
use vulkan_cocoa_core.Render.Choose.{choose_format, choose_mode, choose_extent, choose_image_count}

pub record FrameSync : Type 0 where
  pub image_available : ℕ
  pub render_finished : ℕ
  pub in_flight : ℕ

-- `pending` is the resize that `PendingResize` holds while its flag is set.
pub record Context : Type 0 where
  pub calls : ℕ
  pub log : Log
  pub swapchain : ℕ
  pub images : List ℕ
  pub image_views : List ℕ
  pub framebuffers : List ℕ
  pub render_pass : ℕ
  pub command_buffers : List ℕ
  pub frames : List FrameSync
  pub extent : Extent
  pub format : Format
  pub current_frame : ℕ
  pub state : WindowRenderState
  pub pending : Option Extent

pub data TickOutcome : Type 0 where
  recreated : TickOutcome
  acquired : (image_index command_buffer framebuffer render_pass : ℕ) → Extent → TickOutcome

-- A method on `&mut self` with a `Result`.
abbrev pub Method : Type 0 → Type 0
Method A = Stateful SwapchainError Context A

abbrev pub result : {A : Type 0} → Answer A → Run SwapchainError A
result (answer a) = ok a
result (failed e) = err (vk e)

-- A call of the driver, with `?`.
abbrev pub call : {A : Type 0} → (ℕ → Answer A) → Method A
call f c = (result (f c.calls), record c { calls = c.calls + 1 })

-- A call that makes an object, with `?`.
abbrev pub make : Kind → (ℕ → Answer ℕ) → Method ℕ
make k f = call f >>= λ h. modify (λ c. record c { log = made k h ∷ c.log }) >> pure h

-- `list[i]`
abbrev pub index : {A : Type 0} → List A → ℕ → Run SwapchainError A
index xs i = elim (get_elem? xs i) [ none ↦ panic index_out_of_bounds | some x ↦ ok x ]

-- `iter().map(..).collect::<Result<Vec<_>, _>>()?`
unfoldable pub collect : {A : Type 0} → Kind → (A → ℕ → Answer ℕ) → List A → Method (List ℕ)
collect k f [] = pure []
collect k f (x ∷ xs) = make k (f x) >>= λ y. collect k f xs >>= λ ys. pure (y ∷ ys)

-- `waits`: whether the device is waited for first.
unfoldable pub destroy_swapchain_resources : (waits : Bool) → Context → Context
destroy_swapchain_resources waits c = record c {
  log = destroy_all view_object c.image_views (
      destroy_some pass_object c.render_pass (
        destroy_all framebuffer_object c.framebuffers
          (destroy_all buffer_object c.command_buffers (wait_idle waits c.log))));
  command_buffers = [];
  framebuffers = [];
  render_pass = 0;
  image_views = [];
  images = [];
}

-- The frames, `n` of them.
unfoldable pub make_frames : Display → ℕ → Method (List FrameSync)
make_frames d zero = pure []
make_frames d (suc n) = do
  a ← make semaphore_object d.create_semaphore
  f ← make semaphore_object d.create_semaphore
  i ← make fence_object d.create_fence
  rest ← make_frames d n
  pure (record { image_available = a; render_finished = f; in_flight = i } ∷ rest)

unfoldable pub ensure_frames : Display → Method (Unit {0})
unfolding make_frames
ensure_frames d c = elim c.frames [
  | [] ↦ (make_frames d max_frames_in_flight >>= λ fs. modify (λ c'. record c' { frames = fs })) c
  | f ∷ fs ↦ (ok tt, c)
]

-- The objects that hang on the swapchain's images.
unfoldable pub build_views : Display → Extent → Format → (swapchain : ℕ) → Method (Unit {0})
unfolding collect ensure_frames
build_views d extent format swapchain = do
  images ← call (λ n. d.swapchain_images n swapchain)
  modify (λ c. record c { images = images })
  views ← collect view_object (λ image n. d.create_image_view n image) images
  modify (λ c. record c { image_views = views })
  pass ← make pass_object (λ n. d.create_render_pass n format)
  modify (λ c. record c { render_pass = pass })
  fbs ← collect framebuffer_object (λ view n. d.create_framebuffer n pass view extent) views
  modify (λ c. record c { framebuffers = fbs })
  cbs ← call (λ n. d.allocate_command_buffers n (length images))
  modify (λ c. record c { command_buffers = cbs; log = made_all buffer_object cbs c.log })
  ensure_frames d

unfoldable pub non_empty_formats : List SurfaceFormat → Run SwapchainError SurfaceFormat
unfolding choose_format
non_empty_formats [] = err no_surface_formats
non_empty_formats (f ∷ fs) = ok (choose_format f fs)

-- The choices that the two files make each in their own way.
pub record Choices : Type 0 where
  pub waits : Bool
  pub mode : List PresentMode → PresentMode
  pub image_count : Build → PresentMode → Capabilities → Run SwapchainError ℕ

unfoldable pub non_empty_modes :
    (choose : List PresentMode → PresentMode) → List PresentMode → Run SwapchainError PresentMode
non_empty_modes choose [] = err no_present_modes
non_empty_modes choose (m ∷ ms) = ok (choose (m ∷ ms))

unfoldable pub non_zero_extent : Extent → Run SwapchainError Extent
non_zero_extent e = if e.width == 0 || e.height == 0 then err zero_extent else ok e

unfoldable pub build_by : Choices → Build → Display → (want_w want_h : ℕ) → Method (Unit {0})
unfolding destroy_swapchain_resources build_views non_empty_formats non_empty_modes non_zero_extent
    choose_extent
build_by k b d want_w want_h = do
  modify (destroy_swapchain_resources k.waits)
  caps ← call d.capabilities
  formats ← call d.formats
  chosen ← lift (non_empty_formats formats)
  modes ← call d.present_modes
  mode ← lift (non_empty_modes k.mode modes)
  extent ← lift (bind (choose_extent caps want_w want_h) non_zero_extent)
  count ← lift (k.image_count b mode caps)
  new ← λ c.
      make swapchain_object
        (λ n. d.create_swapchain n (record {
          min_image_count = count;
          image_format = chosen;
          image_extent = extent;
          present_mode = mode;
          old_swapchain = c.swapchain;
        }))
        c
  modify (λ c. record c {
    log = destroy_some swapchain_object c.swapchain c.log;
    swapchain = new;
    extent = extent;
    format = chosen.format;
  })
  build_views d extent chosen.format new

abbrev pub choices : Choices
choices = record {
  waits = true;
  mode = choose_mode;
  image_count = λ b mode caps. choose_image_count b caps;
}

unfoldable pub build_swapchain : Build → Display → (want_w want_h : ℕ) → Method (Unit {0})
unfolding build_by
build_swapchain b d want_w want_h = build_by choices b d want_w want_h

abbrev pub destroy_frames : List FrameSync → Log → Log
destroy_frames [] log = log
destroy_frames (f ∷ fs) log = destroy_frames fs (
    destroyed fence_object f.in_flight
    ∷ destroyed semaphore_object f.render_finished
    ∷ destroyed semaphore_object f.image_available
    ∷ log)

-- `drop`, of the objects that the context made: the surface was given to it.
unfoldable pub drop_context : (waits : Bool) → Context → Log
drop_context waits c =
    let c' = destroy_swapchain_resources waits (record c { log = idle ∷ c.log }) in
    destroy_frames c'.frames (destroy_some swapchain_object c'.swapchain c'.log)
