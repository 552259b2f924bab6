-- ===== src/Device/Select/Collected.antt =====
-- What the loop of `select_physical_device` of src/vulkan_backend/mod.rs collects.
use mathlib.Core.List.{Memᴰ}
use mathlib.Core.List.Memᴰ
use mathlib.Core.List.Memᴰ.{head, tail}
use vulkan_cocoa_core.Common.{
  ℕ, ◌≡◌, ◌≢◌, refl, sym, ap, ◌∙◌, subst, List, [], ◌∷◌, Option, none, some, true, false, ◌&&◌, not,
  arith, inl, inr,
}
use vulkan_cocoa_core.Machine.{Build, ok, add_overflow}
use vulkan_cocoa_core.Machine.Certain.{Certain, sure, Certain-if, Certain-bind, Certain-self}
use vulkan_cocoa_core.Device.Driver.{
  Driver, Answer, answer, failed, DeviceSelectionError, has_extension, ext_swapchain,
  required_device_extensions,
}
use vulkan_cocoa_core.Device.Queues.{QueueFamilyIndices, pick_queue_families}
use vulkan_cocoa_core.Device.Select.Score.{score_candidate-ends}
use vulkan_cocoa_core.Device.Select.{
  Candidate, score_candidate, any_missing, is_some, scored, consider, push_some, candidates,
}

-- A device that may be selected, with what is recorded of it.
pub record Suitable (b : Build) (d : Driver) (surface : Option ℕ) (c : Candidate) : Type 0 where
  pub enumerated : d.extensions c.physical_device ≡ answer c.available_extensions
  pub swapchain : has_extension ext_swapchain c.available_extensions ≡ true
  pub queues : pick_queue_families d c.physical_device surface ≡ some c.queues
  pub presents : (is_some surface && not c.queues.graphics_supports_present) ≡ false
  pub score :
      score_candidate {E = DeviceSelectionError} b d c.physical_device c.available_extensions
      ≡ ok c.score

module _ (b : Build) (d : Driver) (surface : Option ℕ) where
  -- The outcome of one round on device `p`.
  abbrev Considered : ℕ → Option Candidate → Type 0
  Considered p none = (c : Candidate) → Suitable b d surface c → c.physical_device ≢ p
  Considered p (some c) =
      Suitable b d surface c
      × (c.physical_device ≡ p)
      × ((c' : Candidate) → Suitable b d surface c' → c'.physical_device ≡ p → c'.score ≡ c.score)

  -- A device with the required extensions, by its queues.
  scored-Considered :
      (p : ℕ) (exts : List (List ℕ)) (q : Option QueueFamilyIndices)
      → d.extensions p ≡ answer exts
      → has_extension ext_swapchain exts ≡ true
      → pick_queue_families d p surface ≡ q
      → Certain
          (λ t. t ≡ add_overflow)
          (Considered p)
          (elim q [
            | none ↦ ok none
            | some queues ↦ scored {E = DeviceSelectionError} b d surface p exts queues
          ])
  unfolding scored
  scored-Considered p exts none e m f = sure λ c is at. cc (is.queues, at, f)
  scored-Considered p exts (some queues) e m f =
      Certain-if (is_some surface && not queues.graphics_supports_present)
        (λ bad. sure λ c is at. cc (is.queues, is.presents, at, f, bad))
        (λ good. Certain-bind (Certain-self (score_candidate-ends b d p exts)) λ score (g, _).
          sure (
            record { enumerated = e; swapchain = m; queues = f; presents = good; score = g },
            refl,
            λ c is at. cc (is.enumerated, is.score, at, e, g),
          ))

  consider-Considered :
      (p : ℕ)
      → Certain
          (λ t. t ≡ add_overflow)
          (Considered p)
          (consider {E = DeviceSelectionError} b d surface p)
  unfolding consider any_missing
  consider-Considered p = by_extensions (d.extensions p) refl
    where
      by_extensions :
          (a : Answer (List (List ℕ)))
          → d.extensions p ≡ a
          → Certain
              (λ t. t ≡ add_overflow)
              (Considered p)
              (consider {E = DeviceSelectionError} b d surface p)
      by_extensions (failed x) e = rw (e, consider) (sure λ c is at. cc (is.enumerated, at, e))
      by_extensions (answer exts) e =
          rw (e, consider)
            (Certain-if (any_missing required_device_extensions exts)
              (λ missing. sure λ c is at.
                let same : c.available_extensions ≡ exts = cc (is.enumerated, at, e) in
                ground (arith, rw same at is.swapchain, missing))
              (λ there.
                scored-Considered p exts (pick_queue_families d p surface) e (ground (arith, there))
                  refl))

  -- The outcome of the loop on `ps`: suitable devices of `ps`, and for each of them its score.
  pub record Collected (ps : List ℕ) (cs : List Candidate) : Type 0 where
    pub sound : (c : Candidate) → Memᴰ c cs → Suitable b d surface c × Memᴰ c.physical_device ps
    pub full :
        (c : Candidate)
        → Suitable b d surface c
        → Memᴰ c.physical_device ps
        → (c' : Candidate) × Memᴰ c' cs × (c'.score ≡ c.score)

  Collected-push :
      {p : ℕ} {ps : List ℕ} {cs : List Candidate} (o : Option Candidate)
      → Considered p o
      → Collected ps cs
      → Collected (p ∷ ps) (push_some o cs)
  unfolding push_some
  Collected-push none unsuited rest = record {
    sound = λ c m. let (is, at) = rest.sound c m in (is, tail at);
    full = λ c is m. elim (Memᴰ.cases_cons m) [
      | inl e ↦ absurd (unsuited c is e)
      | inr m' ↦ rest.full c is m'
    ];
  }
  Collected-push {p} {ps} {cs} (some new) (ok_new, at_p, same) rest = record {
    sound = λ c m. elim (Memᴰ.cases_cons m) [
      | inl e ↦ (
        subst (Suitable b d surface) (sym e) ok_new,
        head (ap (λ (x : Candidate). x.physical_device) e ∙ at_p),
      )
      | inr m' ↦ let (is, at) = rest.sound c m' in (is, tail at)
    ];
    full = λ c is m. elim (Memᴰ.cases_cons m) [
      | inl e ↦ (new, head refl, sym (same c is e))
      | inr m' ↦ let (c', m'', e) = rest.full c is m' in (c', tail m'', e)
    ];
  }

  pub candidates-Collected :
      (ps : List ℕ)
      → Certain
          (λ t. t ≡ add_overflow)
          (Collected ps)
          (candidates {E = DeviceSelectionError} b d surface ps)
  unfolding candidates
  candidates-Collected [] =
      sure (record {
        sound = λ c m. absurd (Memᴰ.not-nil m);
        full = λ c is m. absurd (Memᴰ.not-nil m);
      })
  candidates-Collected (p ∷ ps) =
      Certain-bind (consider-Considered p)
        λ o is. Certain-bind (candidates-Collected ps) λ cs rest. sure (Collected-push o is rest)
