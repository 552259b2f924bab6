-- ===== src/Render/Swapchain/Rounds.antt =====
-- How `tick` of src/vulkan_backend/swapchain.rs may end, and its rounds.
use vulkan_cocoa_core.Common.{
  ℕ, ◌*◌, sym, zero, suc, ◌+◌, ◌<◌, ◌≤◌, ◌≡◌, Bool, true, false, ◌||◌, ◌==◌, length, arith,
}
use vulkan_cocoa_core.Machine.{Run, ok, err, panic, out_of_fuel, add_overflow, index_out_of_bounds}
use vulkan_cocoa_core.Device.Driver.{Answer, answer, failed}
use vulkan_cocoa_core.Render.Display.{not_ready, timeout, SwapchainError, Display}
use vulkan_cocoa_core.Render.Context.{Context, Method, TickOutcome}
use vulkan_cocoa_core.Machine.Stateful.{then_do}
use vulkan_cocoa_core.Render.Context.Leaves.{Leaves, Framed, Complete}
use vulkan_cocoa_core.Render.Frame.Builds.{Drawn}
use vulkan_cocoa_core.Render.Swapchain.{go_on}

-- Whether no image was ready.
abbrev pub unready : ℕ → Bool
unready e = e == not_ready || e == timeout

-- On the first `rounds` acquisitions of a tick, three calls apart, no image was ready.
abbrev pub Starved : Display → Context → (rounds : ℕ) → Type 0
Starved d c rounds =
    (j : ℕ)
    → j < rounds
    → (semaphore : ℕ) × (e : ℕ) × (d.acquire_next_image (c.calls + 3 * j + 1) c.swapchain semaphore
        ≡ failed e)
      × (unready e ≡ true)

-- How a tick that starts in `c` with `fuel` ends. `stale`: one of its acquisitions was suboptimal, and the
-- swapchain that was built anew has too few images for the index that was acquired from the old one.
pub data Turn (d : Display) (c : Context) (fuel : ℕ)
    : Run SwapchainError TickOutcome × Context → Type 0 where
  draws : {o : TickOutcome} {c' : Context} → Drawn d o c' → Turn d c fuel (ok o, c')
  errs : {e : SwapchainError} {c' : Context} → Framed c' → Turn d c fuel (err e, c')
  overflows : {c' : Context} → Turn d c fuel (panic add_overflow, c')
  stale :
      {c'' : Context} (j semaphore i : ℕ) (c' : Context)
      → j < fuel
      → d.acquire_next_image (c.calls + 3 * j + 1) c.swapchain semaphore ≡ answer (i, true)
      → Complete d c'
      → length c'.images ≤ i
      → Turn d c fuel (panic index_out_of_bounds, c'')
  starved : {c' : Context} → Starved d c fuel → Turn d c fuel (out_of_fuel, c')

module _ {d : Display} {c : Context} {fuel : ℕ} where
  pub Leaves-Turn :
      {r : Run SwapchainError TickOutcome × Context} → Leaves (Drawn d) Framed r → Turn d c fuel r
  Leaves-Turn (Leaves.returns h) = draws h
  Leaves-Turn (Leaves.fails h) = errs h
  Leaves-Turn Leaves.overflows = overflows

  pub Turn-then :
      {A : Type 0} {P : A → Context → Type 0} {r : Run SwapchainError A × Context}
      {f : A → Method TickOutcome}
      → Leaves P Framed r
      → ((a : A) (c' : Context) → P a c' → Turn d c fuel (f a c'))
      → Turn d c fuel (then_do r f)
  Turn-then (Leaves.returns h) k = k _ _ h
  Turn-then (Leaves.fails h) k = errs h
  Turn-then Leaves.overflows k = overflows

  pub go_on-Turn :
      (a : Answer Bool) (again : Method TickOutcome) (c' : Context)
      → Framed c'
      → Turn d c fuel (again c')
      → Turn d c fuel (go_on a again c')
  unfolding go_on
  go_on-Turn (answer true) again c' r h = h
  go_on-Turn (answer false) again c' r h = errs r
  go_on-Turn (failed e) again c' r h = errs r

-- A round in which no image was ready comes before those of the call of `tick` by itself.
pub Turn-again :
    {d : Display} {c c' : Context} {fuel : ℕ} (semaphore e : ℕ)
    {r : Run SwapchainError TickOutcome × Context}
    → c'.calls ≡ c.calls + 3
    → c'.swapchain ≡ c.swapchain
    → d.acquire_next_image (c.calls + 1) c.swapchain semaphore ≡ failed e
    → unready e ≡ true
    → Turn d c' fuel r
    → Turn d c (suc fuel) r
Turn-again semaphore e at same f u (draws h) = draws h
Turn-again semaphore e at same f u (errs h) = errs h
Turn-again semaphore e at same f u overflows = overflows
Turn-again {d} {c} {c'} {fuel} semaphore e at same f u (stale j sem i c₁ small got is few) =
    let moved : c.calls + 3 * suc j + 1 ≡ c'.calls + 3 * j + 1 = omega (arith, at) in
    stale (suc j) sem i c₁ (omega (arith, small)) (rw (moved, sym same) got) is few
Turn-again {d} {c} {c'} {fuel} semaphore e at same f u (starved h) = starved rounds
  where
    rounds : Starved d c (suc fuel)
    rounds zero small =
        let first : c.calls + 3 * 0 + 1 ≡ c.calls + 1 = omega arith in (semaphore, e, rw first f, u)
    rounds (suc j) small =
        let (sem, e', f', u') = h j (omega (arith, small)) in
        let moved : c.calls + 3 * suc j + 1 ≡ c'.calls + 3 * j + 1 = omega (arith, at) in
        (sem, e', rw (moved, sym same) f', u')
