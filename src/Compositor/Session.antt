-- ===== src/Compositor/Session.antt =====
-- A server that is started, receives frames and is dropped.
use mathlib.Core.List.{Memᴰ}
use mathlib.Core.List.Memᴰ
use mathlib.Core.List.Memᴰ.{head, tail}
use vulkan_cocoa_core.Common.{
  ℕ, ◌+◌, ◌≢◌, ◌⊎◌, sym, true, false, ==_iff, arith, ◌≡◌, refl, ap, ◌∙◌, List, [], ◌∷◌, Option,
  none, some, ◌==◌, Bool-cases, inl, inr,
}
use vulkan_cocoa_core.Machine.{Run, ok, panic, unwrap_failed, assertion_failed}
use vulkan_cocoa_core.Machine.Stateful.{◌>>=◌, modify}
use vulkan_cocoa_core.Device.Driver.{Answer, answer, failed}
use vulkan_cocoa_core.Images.Gpu.{remove}
use vulkan_cocoa_core.Images.Image.Lifetime.{remove_head}
use vulkan_cocoa_core.Compositor.Server.{
  QmvIncomingFrame, Host, Native, Method, has_nul, c_string, create_host, create_sync,
  assert_not_null, start_host, start, on_resolved, on_frame_received, drop_server,
}

unfoldable pub on_frames : Host → List (Option QmvIncomingFrame) → Native → Native
on_frames native [] n = n
on_frames native (f ∷ fs) n = on_frames native fs (on_frame_received native f n)

abbrev pub session :
    Host
    → (service_name shm_name : List ℕ) → (slots : ℕ) → List (Option QmvIncomingFrame)
    → Method (Unit {0})
session native service_name shm_name slots frames =
    start native service_name shm_name slots >>= λ server.
    modify (λ n. drop_server server (on_frames native frames n))

-- What is held of the native side.
abbrev pub Holds : Native → (hosts syncs surfaces : List ℕ) → Type 0
Holds n hosts syncs surfaces = (n.hosts ≡ hosts) × (n.syncs ≡ syncs) × (n.surfaces ≡ surfaces)

-- No byte of a name is NUL.
abbrev pub Plain : List ℕ → Type 0
Plain name = Memᴰ 0 name → ⊥

-- How a session that starts with `before` ends, by the names and by what the host gives for them.
pub data Served (native : Host) (service_name shm_name : List ℕ) (slots : ℕ) (before : Native)
    : Run ⊥ (Unit {0}) × Native → Type 0 where
  served :
      {n : Native}
      → Plain service_name
      → Plain shm_name
      → native.host_create before.calls service_name ≢ 0
      → native.sync_create (before.calls + 1) shm_name slots ≢ 0
      → Holds n before.hosts before.syncs before.surfaces
      → Served native service_name shm_name slots before (ok tt, n)
  bad_name :
      Memᴰ 0 service_name ⊎ Memᴰ 0 shm_name
      → Served native service_name shm_name slots before (panic unwrap_failed, before)
  no_host :
      {n : Native}
      → Plain service_name
      → Plain shm_name
      → native.host_create before.calls service_name ≡ 0
      → Holds n before.hosts before.syncs before.surfaces
      → Served native service_name shm_name slots before (panic assertion_failed, n)
  host_left :
      {n : Native}
      → Plain service_name
      → Plain shm_name
      → native.host_create before.calls service_name ≢ 0
      → native.sync_create (before.calls + 1) shm_name slots ≡ 0
      → Holds n
          (native.host_create before.calls service_name ∷ before.hosts)
          before.syncs
          before.surfaces
      → Served native service_name shm_name slots before (panic assertion_failed, n)

has_nul-true : (name : List ℕ) → has_nul name ≡ true → Memᴰ 0 name
unfolding has_nul
has_nul-true [] h = absurd (cc)
has_nul-true (x ∷ xs) h = elim (Bool-cases (x == 0)) [
  | inl z ↦ head (sym ((==_iff x 0).0 z))
  | inr f ↦ tail (has_nul-true xs (ground (arith, h, f)))
]

has_nul-false : (name : List ℕ) → has_nul name ≡ false → Plain name
unfolding has_nul
has_nul-false [] h m = Memᴰ.not-nil m
has_nul-false (x ∷ xs) h m = elim (Memᴰ.cases_cons m) [
  | inl e ↦ ground (arith, h, (==_iff x 0).1 (sym e))
  | inr m' ↦ has_nul-false xs (ground (arith, h)) m'
]

ne_of_false : (h : ℕ) → (h == 0) ≡ false → h ≢ 0
ne_of_false h f z = ground (arith, f, (==_iff h 0).1 z)

on_resolved-Holds : (a : Answer ℕ) (n : Native) → Holds (on_resolved a n) n.hosts n.syncs n.surfaces
unfolding on_resolved
on_resolved-Holds (answer surface) n = (refl, refl, remove_head surface n.surfaces)
on_resolved-Holds (failed code) n = (refl, refl, refl)

on_frame_received-Holds :
    (native : Host) (f : Option QmvIncomingFrame) (n : Native)
    → Holds (on_frame_received native f n) n.hosts n.syncs n.surfaces
unfolding on_frame_received
on_frame_received-Holds native none n = (refl, refl, refl)
on_frame_received-Holds native (some frame) n =
    on_resolved-Holds (native.resolve n.calls frame) (record n { calls = n.calls + 1 })

on_frames-Holds :
    (native : Host) (fs : List (Option QmvIncomingFrame)) (n : Native)
    → Holds (on_frames native fs n) n.hosts n.syncs n.surfaces
unfolding on_frames
on_frames-Holds native [] n = (refl, refl, refl)
on_frames-Holds native (f ∷ fs) n =
    let (h, s, r) = on_frame_received-Holds native f n in
    let (h', s', r') = on_frames-Holds native fs (on_frame_received native f n) in
    (h' ∙ h, s' ∙ s, r' ∙ r)

module _ (native : Host) (frames : List (Option QmvIncomingFrame)) (before : Native) where
  -- From the handles on that creating gave.
  finished-Holds :
      (host sync : ℕ) (n : Native)
      → Holds n (host ∷ before.hosts) (sync ∷ before.syncs) before.surfaces
      → Holds
          (drop_server
            (record { raw_host = host; raw_sync = sync })
            (on_frames native frames (start_host host n)))
          before.hosts
          before.syncs
          before.surfaces
  unfolding drop_server start_host
  finished-Holds host sync n (h, s, r) =
      let (h', s', r') = on_frames-Holds native frames (start_host host n) in
      (
        ap (remove host) (h' ∙ h) ∙ remove_head host before.hosts,
        ap (remove sync) (s' ∙ s) ∙ remove_head sync before.syncs,
        r' ∙ r,
      )

  module _ (service_name shm_name : List ℕ) (slots : ℕ) where
    abbrev host : ℕ
    host = native.host_create before.calls service_name

    abbrev sync : ℕ
    sync = native.sync_create (before.calls + 1) shm_name slots

    -- With names that are fit.
    started-Served :
        has_nul service_name ≡ false
        → has_nul shm_name ≡ false
        → Served native service_name shm_name slots before
            (session native service_name shm_name slots frames before)
    unfolding start c_string create_host assert_not_null create_sync
    started-Served h h' =
        let fit = has_nul-false service_name h in
        let fit' = has_nul-false shm_name h' in
        elim (Bool-cases (host == 0)) [
          | inl z ↦ rw (h, h', z) (no_host fit fit' ((==_iff host 0).0 z) (refl, refl, refl))
          | inr z ↦
              let made : host ≢ 0 = ne_of_false host z in
              elim (Bool-cases (sync == 0)) [
                | inl z' ↦
                    rw (h, h', z, z')
                      (host_left fit fit' made ((==_iff sync 0).0 z') (refl, refl, refl))
                | inr z' ↦
                    rw (h, h', z, z')
                      (served fit fit' made (ne_of_false sync z')
                        (finished-Holds host sync _ (refl, refl, refl)))
              ]
        ]

    -- A name with a NUL byte is refused with nothing done, and only such a one. Else, where the host
    -- gives no handle nothing is left; where it gives one and no synchronisation object is made, the
    -- host is left; and where both are made, a server that is started, receives frames and is dropped
    -- leaves of hosts, synchronisation objects and surfaces what was there before.
    pub session-Served :
        Served native service_name shm_name slots before
          (session native service_name shm_name slots frames before)
    unfolding start c_string
    session-Served = elim (Bool-cases (has_nul service_name)) [
      | inl h ↦ rw h (bad_name (inl (has_nul-true service_name h)))
      | inr h ↦ elim (Bool-cases (has_nul shm_name)) [
        | inl h' ↦ rw (h, h') (bad_name (inr (has_nul-true shm_name h')))
        | inr h' ↦ started-Served h h'
      ]
    ]
