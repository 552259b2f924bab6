-- ===== src/Render/Context/Balanced.antt =====
-- Counting the objects of a context: those that were made and destroyed, and those that it holds.
pub mod Views
pub mod Rebuilt
pub mod Life
use native.Mathlib.Nat.{mul-suc}
use vulkan_cocoa_core.Common.{
  ℕ, ◌≤◌, zero, suc, ◌+◌, ◌*◌, ◌≡◌, ◌≢◌, refl, sym, ap, ◌∙◌, subst, List, [], ◌∷◌, Bool, true,
  false, ◌==◌, length, arith, if◌then◌else◌, pos→ne_zero, zero_or_pos, inl, inr,
}
use vulkan_cocoa_core.Machine.{Build, Run, ok, err, panic, add_overflow}
use vulkan_cocoa_core.Machine.Stateful.{then_do}
use vulkan_cocoa_core.Device.Driver.{Answer, answer, failed}
use vulkan_cocoa_core.Render.Display.{
  SwapchainError, Extent, Format, Display, SwapchainCreateInfo, max_frames_in_flight,
}
use vulkan_cocoa_core.Render.Objects.{
  Kind, swapchain_object, view_object, pass_object, framebuffer_object, buffer_object,
  semaphore_object, fence_object, Event, made, destroyed, idle, Log, destroy_all, destroy_some,
  made_all, wait_idle, one_of, created, gone,
}
use vulkan_cocoa_core.Render.Context.{
  FrameSync, Context, Method, make, call, result, collect, make_frames, ensure_frames, build_views,
}
use vulkan_cocoa_core.Render.Context.Leaves.{
  Leaves, returns, fails, overflows, Leaves-then, Driven, calls_at, Calls, call-Leaves,
  Leaves-Calls,
}

-- 1 for a handle that is not null.
abbrev pub some_handle : ℕ → ℕ
some_handle h = if h == 0 then 0 else 1

abbrev pub held : Kind → Context → ℕ
held swapchain_object c = some_handle c.swapchain
held view_object c = length c.image_views
held pass_object c = some_handle c.render_pass
held framebuffer_object c = length c.framebuffers
held buffer_object c = length c.command_buffers
held semaphore_object c = 2 * length c.frames
held fence_object c = length c.frames

abbrev pub Balanced : Context → Type 0
Balanced c = (k : Kind) → created k c.log ≡ gone k c.log + held k c

-- From one log to another, `n` objects of the kind were made and `m` destroyed.
pub record Grows (k : Kind) (log log' : Log) (n m : ℕ) : Type 0 where
  pub up : created k log' ≡ created k log + n
  pub down : gone k log' ≡ gone k log + m

module _ (k : Kind) where
  pub destroy_all-Grows :
      (k' : Kind) (hs : List ℕ) (log : Log)
      → Grows k log (destroy_all k' hs log) 0 (one_of k k' * length hs)
  destroy_all-Grows k' [] log = record { up = omega arith; down = omega arith }
  destroy_all-Grows k' (h ∷ hs) log =
      let rest = destroy_all-Grows k' hs (destroyed k' h ∷ log) in
      record {
        up = omega (arith, rest.up);
        down = rest.down ∙ rw (mul-suc (one_of k k') (length hs)) (omega arith);
      }

  pub destroy_some-Grows :
      (k' : Kind) (h : ℕ) (log : Log)
      → Grows k log (destroy_some k' h log) 0 (one_of k k' * some_handle h)
  destroy_some-Grows k' h log = elim (zero_or_pos h) [
    | inl z ↦ rw z (record { up = omega arith; down = omega arith })
    | inr p ↦ rw (pos→ne_zero h p) (record { up = omega arith; down = omega arith })
  ]

  pub made_all-Grows :
      (k' : Kind) (hs : List ℕ) (log : Log)
      → Grows k log (made_all k' hs log) (one_of k k' * length hs) 0
  made_all-Grows k' [] log = record { up = omega arith; down = omega arith }
  made_all-Grows k' (h ∷ hs) log =
      let rest = made_all-Grows k' hs (made k' h ∷ log) in
      record {
        up = rest.up ∙ rw (mul-suc (one_of k k') (length hs)) (omega arith);
        down = omega (arith, rest.down);
      }

-- From one log to another, objects of the kind were made at most.
pub record Adds (k : Kind) (log log' : Log) : Type 0 where
  pub up : created k log ≤ created k log'
  pub same : gone k log' ≡ gone k log

module _ (k : Kind) where
  pub made-Adds : (k' : Kind) (h : ℕ) (log log' : Log) → log' ≡ made k' h ∷ log → Adds k log log'
  made-Adds k' h log log' e = record { up = omega (arith, ap (created k) e); same = ap (gone k) e }

  pub same-Adds : {log log' : Log} → log' ≡ log → Adds k log log'
  same-Adds e = record { up = omega (arith, ap (created k) e); same = ap (gone k) e }

  pub Adds-trans : {l l' l'' : Log} → Adds k l l' → Adds k l' l'' → Adds k l l''
  Adds-trans a b = record { up = omega (arith, a.up, b.up); same = b.same ∙ a.same }

-- Calls whose result and log satisfy `P`; where one fails, objects were made at most.
abbrev pub Drives :
    Kind → {A : Type 0} → (A → Driven → Type 0) → Context → Run SwapchainError A × Context → Type 0
Drives k P c =
    Leaves (λ a c'. (x : Driven) × (c' ≡ calls_at x c) × P a x)
      (λ c'. (x : Driven) × (c' ≡ calls_at x c) × Adds k c.log x.1)

module _ (k : Kind) where
  pub Drives-then :
      {A B : Type 0} {P : A → Driven → Type 0} {Q : B → Context → Type 0} {R : Context → Type 0}
      {r : Run SwapchainError A × Context} (f : A → Method B) (c : Context)
      → Drives k P c r
      → ((x : Driven) → Adds k c.log x.1 → R (calls_at x c))
      → ((a : A) (x : Driven) → P a x → Leaves Q R (f a (calls_at x c)))
      → Leaves Q R (then_do r f)
  Drives-then {Q = Q} {R = R} f c (returns {a = a} (x, e, p)) bad go =
      subst (λ y. Leaves Q R (f a y)) (sym e) (go a x p)
  Drives-then {R = R} f c (fails (x, e, adds)) bad go = fails (subst R (sym e) (bad x adds))
  Drives-then f c overflows bad go = overflows

  pub call-Drives :
      {A : Type 0} (f : ℕ → Answer A) (c : Context)
      → Drives k (λ a x. (x.1 ≡ c.log) × (f c.calls ≡ answer a)) c (call f c)
  call-Drives {A = A} f c = by_answer (f c.calls)
    where
      by_answer :
          (x : Answer A)
          → Drives k
              (λ a y. (y.1 ≡ c.log) × (x ≡ answer a))
              c
              (result x, calls_at (c.calls + 1, c.log) c)
      by_answer (answer a) = returns ((c.calls + 1, c.log), refl, (refl, refl))
      by_answer (failed e) =
          fails ((c.calls + 1, c.log), refl, record { up = omega arith; same = refl })

  pub make-Drives :
      (k' : Kind) (f : ℕ → Answer ℕ) (c : Context)
      → Drives k (λ h x. (x.1 ≡ made k' h ∷ c.log) × (f c.calls ≡ answer h)) c (make k' f c)
  make-Drives k' f c =
      Drives-then _ c (call-Drives f c) (λ x adds. (x, refl, adds))
        λ h x (e, a). returns ((x.0, made k' h ∷ x.1), refl, (ap (λ l. made k' h ∷ l) e, a))

pub some_handle-one : (h : ℕ) → h ≢ 0 → some_handle h ≡ 1
some_handle-one h has = elim (zero_or_pos h) [
  | inl z ↦ absurd (has z)
  | inr p ↦ rw (pos→ne_zero h p) refl
]
