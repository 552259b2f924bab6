-- ===== src/Compositor/Server.antt =====
-- `QmvServer` and the callback for frames. Printing, and the callback for clients, which only prints,
-- are left out.
use vulkan_cocoa_core.Common.{
  ℕ, ◌+◌, List, [], ◌∷◌, Option, none, some, Bool, false, ◌||◌, ◌==◌, if◌then◌else◌,
}
use vulkan_cocoa_core.Machine.{Run, ok, panic, unwrap_failed, assertion_failed}
use vulkan_cocoa_core.Machine.Stateful.{Stateful, ◌>>=◌, ◌>>◌, pure, modify, lift}
use vulkan_cocoa_core.Device.Driver.{Answer, answer, failed}
use vulkan_cocoa_core.Images.Gpu.{remove}

pub record QmvIncomingFrame : Type 0 where
  pub client_token : ℕ
  pub surface_port : ℕ
  pub width : ℕ
  pub height : ℕ
  pub frame_index : ℕ
  pub received_at_mach_time : ℕ

-- The native host: the handle that creating gives, with 0 for null, and the surface that a frame is
-- resolved to. An answer may depend on how many calls were made before it.
pub record Host : Type 0 where
  pub host_create : (calls : ℕ) (service_name : List ℕ) → ℕ
  pub sync_create : (calls : ℕ) (name : List ℕ) (slot_count : ℕ) → ℕ
  pub resolve : (calls : ℕ) → QmvIncomingFrame → Answer ℕ

-- What was made and not yet given back, the last one first, and the hosts that have their callbacks
-- and were started.
pub record Native : Type 0 where
  pub calls : ℕ
  pub hosts : List ℕ
  pub syncs : List ℕ
  pub surfaces : List ℕ
  pub frame_callbacks : List ℕ
  pub client_callbacks : List ℕ
  pub started : List ℕ

abbrev pub Method : Type 0 → Type 0
Method A = Stateful ⊥ Native A

pub record QmvServer : Type 0 where
  pub raw_host : ℕ
  pub raw_sync : ℕ

unfoldable pub has_nul : List ℕ → Bool
has_nul [] = false
has_nul (x ∷ xs) = x == 0 || has_nul xs

-- `CString::new(..).unwrap()`
unfoldable pub c_string : List ℕ → Run ⊥ (List ℕ)
c_string bytes = if has_nul bytes then panic unwrap_failed else ok bytes

-- The null handle stands for no object.
abbrev pub keep : ℕ → List ℕ → List ℕ
keep h xs = if h == 0 then xs else h ∷ xs

unfoldable pub create_host : Host → List ℕ → Method ℕ
create_host native name n =
    let h = native.host_create n.calls name in
    (ok h, record n { calls = n.calls + 1; hosts = keep h n.hosts })

unfoldable pub create_sync : Host → List ℕ → (slots : ℕ) → Method ℕ
create_sync native name slots n =
    let h = native.sync_create n.calls name slots in
    (ok h, record n { calls = n.calls + 1; syncs = keep h n.syncs })

-- `assert!(!handle.is_null(), ..)`
unfoldable pub assert_not_null : ℕ → Run ⊥ (Unit {0})
assert_not_null h = if h == 0 then panic assertion_failed else ok tt

unfoldable pub start_host : (host : ℕ) → Native → Native
start_host host n = record n {
  frame_callbacks = host ∷ n.frame_callbacks;
  client_callbacks = host ∷ n.client_callbacks;
  started = host ∷ n.started;
}

unfoldable pub start : Host → (service_name shm_name : List ℕ) → (slots : ℕ) → Method QmvServer
start native service_name shm_name slots = do
  c_service ← lift (c_string service_name)
  c_shm ← lift (c_string shm_name)
  host ← create_host native c_service
  lift (assert_not_null host)
  sync ← create_sync native c_shm slots
  lift (assert_not_null sync)
  modify (start_host host)
  pure (record { raw_host = host; raw_sync = sync })

-- A surface is retained where resolving succeeds.
unfoldable pub on_resolved : Answer ℕ → Native → Native
on_resolved (answer surface) n =
    let resolved : Native = record n { surfaces = surface ∷ n.surfaces } in
    record resolved { surfaces = remove surface resolved.surfaces }
on_resolved (failed code) n = n

-- No frame stands for the null pointer.
unfoldable pub on_frame_received : Host → Option QmvIncomingFrame → Native → Native
on_frame_received native none n = n
on_frame_received native (some frame) n =
    on_resolved (native.resolve n.calls frame) (record n { calls = n.calls + 1 })

-- `drop`
unfoldable pub drop_server : QmvServer → Native → Native
drop_server server n = record n {
  hosts = remove server.raw_host n.hosts;
  syncs = remove server.raw_sync n.syncs;
}
