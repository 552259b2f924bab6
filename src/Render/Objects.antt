-- ===== src/Render/Objects.antt =====
-- The objects that a context makes and destroys, by the log of these calls, the last one first.
use vulkan_cocoa_core.Common.{ℕ, ◌+◌, List, [], ◌∷◌, Bool, true, false, ◌==◌, if◌then◌else◌}

pub data Kind : Type 0 where
  swapchain_object view_object pass_object framebuffer_object buffer_object semaphore_object
        fence_object :
      Kind

-- `idle` is a wait for the device to be idle.
pub data Event : Type 0 where
  made destroyed : Kind → (handle : ℕ) → Event
  idle : Event

abbrev pub Log : Type 0
Log = List Event

abbrev pub destroy_all : Kind → List ℕ → Log → Log
destroy_all k [] log = log
destroy_all k (h ∷ hs) log = destroy_all k hs (destroyed k h ∷ log)

-- Unless it is the null handle.
abbrev pub destroy_some : Kind → (handle : ℕ) → Log → Log
destroy_some k h log = if h == 0 then log else destroyed k h ∷ log

abbrev pub made_all : Kind → List ℕ → Log → Log
made_all k [] log = log
made_all k (h ∷ hs) log = made_all k hs (made k h ∷ log)

abbrev pub wait_idle : (waits : Bool) → Log → Log
wait_idle true log = idle ∷ log
wait_idle false log = log

abbrev pub code : Kind → ℕ
code swapchain_object = 0
code view_object = 1
code pass_object = 2
code framebuffer_object = 3
code buffer_object = 4
code semaphore_object = 5
code fence_object = 6

-- 1 for an event of the kind `k`.
abbrev pub one_of : (k k' : Kind) → ℕ
one_of k k' = if code k == code k' then 1 else 0

abbrev pub created : Kind → Log → ℕ
created k [] = 0
created k (made k' h ∷ log) = one_of k k' + created k log
created k (destroyed k' h ∷ log) = created k log
created k (idle ∷ log) = created k log

abbrev pub gone : Kind → Log → ℕ
gone k [] = 0
gone k (made k' h ∷ log) = gone k log
gone k (destroyed k' h ∷ log) = one_of k k' + gone k log
gone k (idle ∷ log) = gone k log
