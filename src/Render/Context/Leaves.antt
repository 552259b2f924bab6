-- ===== src/Render/Context/Leaves.antt =====
-- How a method of the context ends; and complete swapchains: one view, framebuffer and command buffer
-- for each image.
use vulkan_cocoa_core.Common.{ℕ, ◌+◌, ◌<◌, ◌≤◌, ◌≡◌, refl, sym, subst, List, length, ◌⊎◌}
use vulkan_cocoa_core.Machine.{Run, ok, err, panic, add_overflow}
use vulkan_cocoa_core.Machine.Ensures.{Ensures, holds, rejected, panics}
use vulkan_cocoa_core.Device.Driver.{Answer, answer, failed}
use vulkan_cocoa_core.Render.Display.{SwapchainError, Display, Capabilities}
use vulkan_cocoa_core.Machine.Stateful.{then_do}
use vulkan_cocoa_core.Render.Objects.{Log, Kind}
use vulkan_cocoa_core.Render.Context.{Context, Method, make, call, result}

-- A method's outcome: a value with `Q`, an error with `R`, or a panic of the overflow.
pub data Leaves {A : Type 0} (Q : A → Context → Type 0) (R : Context → Type 0)
    : Run SwapchainError A × Context → Type 0 where
  returns : {a : A} {c : Context} → Q a c → Leaves Q R (ok a, c)
  fails : {e : SwapchainError} {c : Context} → R c → Leaves Q R (err e, c)
  overflows : {c : Context} → Leaves Q R (panic add_overflow, c)

module _ {A B : Type 0} {Q : B → Context → Type 0} {R : Context → Type 0} where
  pub Leaves-then :
      {P : A → Context → Type 0} {r : Run SwapchainError A × Context} {f : A → Method B}
      → Leaves P R r
      → ((a : A) (c : Context) → P a c → Leaves Q R (f a c))
      → Leaves Q R (then_do r f)
  Leaves-then (returns h) k = k _ _ h
  Leaves-then (fails h) k = fails h
  Leaves-then overflows k = overflows

module _ {A : Type 0} {P Q : A → Context → Type 0} {R S : Context → Type 0} where
  pub Leaves-map :
      {r : Run SwapchainError A × Context}
      → Leaves P R r
      → ((a : A) (c : Context) → P a c → Q a c)
      → ((c : Context) → R c → S c)
      → Leaves Q S r
  Leaves-map (returns h) k l = returns (k _ _ h)
  Leaves-map (fails h) k l = fails (l _ h)
  Leaves-map overflows k l = overflows

-- The frames are there or not yet.
pub record Framed (c : Context) : Type 0 where
  pub some_or_all : (length c.frames ≡ 0) ⊎ (length c.frames ≡ 3)
  pub current : c.current_frame < 3

-- `listed`: the images are those that the driver listed for the swapchain.
pub record Complete (d : Display) (c : Context) : Type 0 where
  pub listed : (n : ℕ) × (d.swapchain_images n c.swapchain ≡ answer c.images)
  pub views : length c.image_views ≡ length c.images
  pub framebuffers : length c.framebuffers ≡ length c.images
  pub command_buffers : length c.command_buffers ≡ length c.images
  pub frames : length c.frames ≡ 3
  pub current : c.current_frame < 3

-- `allocate_command_buffers` gives as many as are asked for.
abbrev pub Allocates : Display → Type 0
Allocates d =
    (calls count : ℕ) (cbs : List ℕ)
    → d.allocate_command_buffers calls count ≡ answer cbs
    → length cbs ≡ count

-- The least extent that a surface allows is at most the greatest.
abbrev pub Ranged : Display → Type 0
Ranged d =
    (calls : ℕ) (caps : Capabilities)
    → d.capabilities calls ≡ answer caps
    → (caps.min_image_extent.width ≤ caps.max_image_extent.width)
      × (caps.min_image_extent.height ≤ caps.max_image_extent.height)

-- Both, as Vulkan documents them.
pub record Conforms (d : Display) : Type 0 where
  pub allocates : Allocates d
  pub ranged : Ranged d

-- What calls change besides the fields that keep their results.
abbrev pub Driven : Type 0
Driven = ℕ × Log

abbrev pub calls_at : Driven → Context → Context
calls_at n c = record c { calls = n.0; log = n.1 }

-- `c'` differs from `c` by calls only.
abbrev pub Calls : Context → Context → Type 0
Calls c c' = (n : Driven) × (c' ≡ calls_at n c)

by_answer :
    {A : Type 0} {R : Context → Type 0} {Q : A → Context → Type 0} (x : Answer A) (c : Context)
    → R c
    → ((a : A) → x ≡ answer a → Q a c)
    → Leaves Q R (result x, c)
by_answer (answer a) c r k = returns (k a refl)
by_answer (failed e) c r k = fails r

pub call-Leaves :
    {A : Type 0} {R : Context → Type 0} (f : ℕ → Answer A) (c : Context)
    → ((n : Driven) → R (calls_at n c))
    → Leaves (λ a c'. Calls c c' × (f c.calls ≡ answer a)) R (call f c)
call-Leaves f c r =
    by_answer (f c.calls) (calls_at (c.calls + 1, c.log) c) (r (c.calls + 1, c.log))
      λ a e. (((c.calls + 1, c.log), refl), e)

-- What follows a method that only calls.
pub Leaves-Calls :
    {A B : Type 0} {P : A → Type 0} {Q : B → Context → Type 0} {R : Context → Type 0}
    {r : Run SwapchainError A × Context} (f : A → Method B) (c : Context)
    → Leaves (λ a c'. Calls c c' × P a) R r
    → ((a : A) (n : Driven) → P a → Leaves Q R (f a (calls_at n c)))
    → Leaves Q R (then_do r f)
Leaves-Calls {Q = Q} {R = R} f c h k =
    Leaves-then h λ a c' ((n, e), p). subst (λ x. Leaves Q R (f a x)) (sym e) (k a n p)

pub Framed-calls_at : {c : Context} → Framed c → (n : Driven) → Framed (calls_at n c)
Framed-calls_at fr n = record { some_or_all = fr.some_or_all; current = fr.current }

-- A result that needs no call, and what follows it.
pub Leaves-lift :
    {A B : Type 0} {P : A → Type 0} {Q : B → Context → Type 0} {R : Context → Type 0}
    {r : Run SwapchainError A} (f : A → Method B) (c : Context)
    → Ensures (λ p. p ≡ add_overflow) P r
    → R c
    → ((a : A) → P a → Leaves Q R (f a c))
    → Leaves Q R (then_do (r, c) f)
Leaves-lift {Q = Q} {R = R} f c (holds h) fine k = k _ h
Leaves-lift f c rejected fine k = fails fine
Leaves-lift {Q = Q} {R = R} f c (panics q) fine k =
    subst (λ p. Leaves Q R (then_do (panic p, c) f)) (sym q) overflows

pub make-Leaves :
    {R : Context → Type 0} (k : Kind) (f : ℕ → Answer ℕ) (c : Context)
    → ((n : Driven) → R (calls_at n c))
    → Leaves (λ a c'. Calls c c' × (f c.calls ≡ answer a)) R (make k f c)
make-Leaves k f c r = Leaves-Calls _ c (call-Leaves f c r) λ h n e. returns ((_, refl), e)
