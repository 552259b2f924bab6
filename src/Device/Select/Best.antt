-- ===== src/Device/Select/Best.antt =====
-- On what `select_physical_device` of src/vulkan_backend/mod.rs selects.
use mathlib.Core.List.{Memᴰ}
use mathlib.Core.List.Memᴰ
use mathlib.Core.List.Memᴰ.{head, tail}
use vulkan_cocoa_core.Common.{
  ℕ, ◌≤◌, ◌≡◌, refl, ap, List, [], ◌∷◌, Option, leb, arith, inl, inr, Bool-cases,
}
use vulkan_cocoa_core.Machine.{Build, Run, ok, err, panic, out_of_fuel, add_overflow, bind}
use vulkan_cocoa_core.Machine.Certain.{Certain, sure, panics}
use vulkan_cocoa_core.Device.Driver.{
  Driver, Answer, answer, failed, DeviceSelectionError, vk, no_devices, no_suitable_device, try_vk,
}
use vulkan_cocoa_core.Device.Select.{
  Candidate, candidates, max_from, max_by_score, ok_or_unsuitable, select_physical_device,
}
use vulkan_cocoa_core.Device.Select.Collected.{Suitable, Collected, candidates-Collected}

-- The fold keeps one of the candidates with the highest score.
max_from-max :
    (best : Candidate) (cs : List Candidate)
    → Memᴰ (max_from best cs) (best ∷ cs)
      × ((c : Candidate) → Memᴰ c (best ∷ cs) → c.score ≤ (max_from best cs).score)
unfolding max_from
max_from-max best [] = (
  head refl,
  λ c m. elim (Memᴰ.cases_cons m) [
    | inl e ↦ omega (arith, ap (λ (x : Candidate). x.score) e)
    | inr m' ↦ absurd (Memᴰ.not-nil m')
  ],
)
max_from-max best (c ∷ cs) = elim (Bool-cases (leb best.score c.score)) [
  | inl le ↦
      let (m, most) = max_from-max c cs in
      rw le (
        tail m,
        λ x mx. elim (Memᴰ.cases_cons mx) [
          | inl e ↦ ground (arith, le, most c (head refl), ap (λ (x : Candidate). x.score) e)
          | inr m' ↦ most x m'
        ],
      )
  | inr gt ↦
      let (m, most) = max_from-max best cs in
      rw gt (
        elim (Memᴰ.cases_cons m) [ inl e ↦ head e | inr m' ↦ tail (tail m') ],
        λ x mx. elim (Memᴰ.cases_cons mx) [
          | inl e ↦ omega (arith, most best (head refl), ap (λ (x : Candidate). x.score) e)
          | inr mx' ↦ elim (Memᴰ.cases_cons mx') [
            | inl e ↦ ground (arith, gt, most best (head refl), ap (λ (x : Candidate). x.score) e)
            | inr m' ↦ most x (tail m')
          ]
        ],
      )
]

module _ (b : Build) (d : Driver) (surface : Option ℕ) where
  -- What each outcome says of the devices.
  abbrev pub Outcome : Run DeviceSelectionError Candidate → Type 0
  Outcome (ok c) =
      (ps : List ℕ) × (d.enumerate_physical_devices ≡ answer ps)
      × Memᴰ c.physical_device ps
      × Suitable b d surface c
      × ((c' : Candidate)
          → Suitable b d surface c'
          → Memᴰ c'.physical_device ps
          → c'.score ≤ c.score)
  Outcome (err (vk e)) = d.enumerate_physical_devices ≡ failed e
  Outcome (err no_devices) = d.enumerate_physical_devices ≡ answer []
  Outcome (err no_suitable_device) =
      (ps : List ℕ) × (d.enumerate_physical_devices ≡ answer ps)
      × ((c : Candidate) → Suitable b d surface c → Memᴰ c.physical_device ps → ⊥)
  Outcome (panic p) = p ≡ add_overflow
  Outcome out_of_fuel = ⊥

  select-Outcome :
      (ps : List ℕ) (cs : List Candidate)
      → d.enumerate_physical_devices ≡ answer ps
      → Collected b d surface ps cs
      → Outcome (ok_or_unsuitable (max_by_score cs))
  unfolding ok_or_unsuitable max_by_score
  select-Outcome ps [] e all =
      (ps, e, λ c is m. let (c', m', same) = all.full c is m in Memᴰ.not-nil m')
  select-Outcome ps (c ∷ cs) e all =
      let (m, most) = max_from-max c cs in
      let (is, at) = all.sound (max_from c cs) m in
      (
        ps,
        e,
        at,
        is,
        λ c' is' m'. let (c'', m'', same) = all.full c' is' m' in omega (arith, most c'' m'', same),
      )

  -- On the devices that the driver lists, the selected one is suitable and no suitable one has a
  -- higher score; the error for no suitable device means that there is none; the other errors come
  -- from the list; and a panic is an overflow of the sum of a device's heaps.
  pub select_physical_device-Outcome : Outcome (select_physical_device b d surface)
  unfolding select_physical_device try_vk
  select_physical_device-Outcome = by_devices d.enumerate_physical_devices refl
    where
      by_run :
          (ps : List ℕ) {r : Run DeviceSelectionError (List Candidate)}
          → d.enumerate_physical_devices ≡ answer ps
          → Certain (λ t. t ≡ add_overflow) (Collected b d surface ps) r
          → Outcome (bind r λ cs. ok_or_unsuitable (max_by_score cs))
      by_run ps e (sure {a = cs} h) = select-Outcome ps cs e h
      by_run ps e (panics h) = h

      by_devices :
          (a : Answer (List ℕ))
          → d.enumerate_physical_devices ≡ a
          → Outcome (
              bind (try_vk a) λ pdevices. elim pdevices [
                | [] ↦ err no_devices
                | p ∷ ps ↦
                    bind (candidates b d surface (p ∷ ps)) λ cs. ok_or_unsuitable (max_by_score cs)
              ])
      by_devices (failed x) e = e
      by_devices (answer []) e = e
      by_devices (answer (p ∷ ps)) e = by_run (p ∷ ps) e (candidates-Collected b d surface (p ∷ ps))
