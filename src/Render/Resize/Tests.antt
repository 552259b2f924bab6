-- ===== src/Render/Resize/Tests.antt =====
-- The theorems on resizes at concrete sizes.
use vulkan_cocoa_core.Common.{◌≡◌, refl, [], ◌∷◌, none, true, false}
use vulkan_cocoa_core.Render.Display.{Extent}
use vulkan_cocoa_core.Render.Frame.{initial, request_resize}
use vulkan_cocoa_core.Render.Resize.{
  default, request, take, at_rest, free, System, store_width, store_height, store_flag, swap_flag,
  load_width, load_height, Reach, starts, requests, takes,
}
use vulkan_cocoa_core.Render.Resize.Settled.{LastTaken, Delivered, taken-settled, take-Delivered}
use vulkan_cocoa_core.Render.Resize.Refines.{Represents, request-take-Represents, take-torn}

abbrev small : Extent
small = record { width = 8; height = 6 }

abbrev large : Extent
large = record { width = 80; height = 60 }

-- After a request, and after it was taken too.
abbrev asked : System
asked = record {
  cell = record { flag = true; width = 8; height = 6 };
  requester = at_rest;
  taker = free;
  requested = small ∷ [];
  taken = [];
}

asked-Reach : Reach asked
unfolding default
asked-Reach =
    requests (requests (requests starts (store_width small refl)) (store_height small refl))
      (store_flag small refl)

abbrev settled : System
settled = record asked { cell = record { flag = false; width = 8; height = 6 }; taken = small ∷ [] }

settled-Reach : Reach settled
settled-Reach =
    takes (takes (takes asked-Reach (swap_flag refl refl)) (load_width refl)) (load_height 8 refl)

taken-settled_example : LastTaken settled small
taken-settled_example = taken-settled small settled-Reach refl refl refl ([], refl)

take-Delivered_example : Delivered asked small
take-Delivered_example = take-Delivered small asked asked-Reach refl ([], refl)

request-take-Represents_example :
    Represents (request large default) (request_resize large (initial small))
    × ((take default).0 ≡ none)
    × Represents (take default).1 (initial small)
unfolding default initial
request-take-Represents_example = request-take-Represents default (initial small) large refl

take-torn_example :
    (s : System) × Reach s
    × (s.requested ≡ large ∷ small ∷ [])
    × LastTaken s (record { width = 80; height = 6 })
take-torn_example = take-torn small large
