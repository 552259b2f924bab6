-- ===== src/Windows/Tests.antt =====
-- The theorems on windows at concrete messages, with whole numbers for coordinates.
use vulkan_cocoa_core.Common.{ℕ, refl, List, [], ◌∷◌, true, not, ◌==◌, ◌+◌, if◌then◌else◌, arith}
use vulkan_cocoa_core.Machine.Stateful.{Ends}
use vulkan_cocoa_core.Windows.Table.{Float, NsRect}
use vulkan_cocoa_core.Windows.Handlers.{
  Bridge, Message, set_frame, make_key_and_order_front, set_title, handle_all,
}
use vulkan_cocoa_core.Windows.Sync.{known, initless, InSync, CastsAlike, handle_all-InSync}
use vulkan_cocoa_core.Windows.Install.{ObjcRuntime, Objc, install}
use vulkan_cocoa_core.Windows.Install.Plan.{
  Installed, Stopped, nsapplication, nswindow, nsview, nsscreen, plan,
}
use vulkan_cocoa_core.Windows.Install.Ordered.{install-Installed}

abbrev whole : Float
whole = record { Carrier = ℕ; nought = 0; differ = λ x y. not (x == y); as_u32 = λ x. x }

abbrev rect : NsRect ℕ
rect = record { origin = record { x = 0; y = 0 }; size = record { width = 640; height = 480 } }

abbrev start : Bridge whole
start = record { windows = []; events = [] }

start-InSync : InSync whole start
unfolding known
start-InSync id sz e = cc

whole-CastsAlike : CastsAlike whole
whole-CastsAlike x y h = ground (arith, h)

abbrev messages : List (Message whole)
messages = set_frame 7 rect ∷ make_key_and_order_front 7 ∷ set_title 7 (65 ∷ []) ∷ []

handle_all-InSync_example : InSync whole (handle_all whole true messages start)
unfolding initless
handle_all-InSync_example =
    handle_all-InSync whole messages start whole-CastsAlike refl start-InSync

-- A runtime that knows no class but that of applications, and refuses nothing.
abbrev runtime : ObjcRuntime
runtime = record {
  get_class = λ n name. if n == 0 then 50 else 0;
  metaclass = λ cls. cls + 1;
  allocate_class_pair = λ n super name. n + 100;
  add_method = λ n cls m. true;
}

abbrev objc : Objc
objc = record { calls = 0; log = [] }

install-Installed_example :
    Ends
      (λ _ o'. Installed runtime [] (nsscreen ∷ nsview ∷ nswindow ∷ nsapplication ∷ []) o'.log)
      (λ e o'. Stopped runtime [] plan e o'.log)
      (install runtime objc)
install-Installed_example = install-Installed runtime objc
