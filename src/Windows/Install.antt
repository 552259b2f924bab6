-- ===== src/Windows/Install.antt =====
-- `install` of src/bridge/swizzle.rs: the classes of AppKit are made, or their methods replaced. The
-- Objective-C runtime is a parameter; what is kept is the log of the calls that change a class.
pub mod Plan
pub mod Ordered
use vulkan_cocoa_core.Common.{ℕ, ◌+◌, List, [], ◌∷◌, Bool, true, false, ◌==◌, if◌then◌else◌}
use vulkan_cocoa_core.Machine.{Run, ok, err}
use vulkan_cocoa_core.Machine.Stateful.{Stateful, ◌>>=◌, ◌>>◌, pure, modify}
use vulkan_cocoa_core.Air.Tags.{codes}

pub data SwizzleError : Type 0 where
  class_allocation_failed method_add_failed : (name : List ℕ) → SwizzleError

-- The functions that become methods.
pub data Imp : Type 0 where
  shared_application_imp run_imp application_terminate_imp : Imp
  window_init_imp window_set_title_imp window_set_delegate_imp window_make_key_and_order_front_imp :
      Imp
  window_frame_imp window_set_frame_display_imp window_order_out_imp window_close_imp
        window_content_view_imp :
      Imp
  window_center_imp window_style_mask_imp : Imp
  view_set_wants_layer_imp view_wants_layer_imp view_layer_imp view_set_layer_imp view_frame_imp
        view_bounds_imp :
      Imp
  view_window_imp : Imp
  screens_func_imp main_screen_func_imp screen_frame_imp screen_backing_scale_factor_imp : Imp

-- A method to install: of the class, or of its metaclass.
pub record MethodEntry : Type 0 where
  pub meta : Bool
  pub selector : List ℕ
  pub imp : Imp

abbrev pub on_class : List ℕ → Imp → MethodEntry
on_class selector imp = record { meta = false; selector = selector; imp = imp }

abbrev pub on_meta : List ℕ → Imp → MethodEntry
on_meta selector imp = record { meta = true; selector = selector; imp = imp }

-- An answer may depend on how many calls were made before it; 0 is the null class.
pub record ObjcRuntime : Type 0 where
  pub get_class : (calls : ℕ) (name : List ℕ) → ℕ
  pub metaclass : (cls : ℕ) → ℕ
  pub allocate_class_pair : (calls super : ℕ) (name : List ℕ) → ℕ
  pub add_method : (calls cls : ℕ) → MethodEntry → Bool

pub data ClassCall : Type 0 where
  allocated : (cls super : ℕ) (name : List ℕ) → ClassCall
  registered : (cls : ℕ) → ClassCall
  added replaced : (cls : ℕ) → MethodEntry → ClassCall

-- The log has the last call first.
pub record Objc : Type 0 where
  pub calls : ℕ
  pub log : List ClassCall

abbrev pub Doing : Type 0 → Type 0
Doing A = Stateful SwizzleError Objc A

abbrev pub logged : ClassCall → Objc → Objc
logged e o = record { calls = o.calls + 1; log = e ∷ o.log }

abbrev pub asked : Objc → Objc
asked o = record o { calls = o.calls + 1 }

-- A new class where none was found, from the class that was allocated on.
unfoldable pub check_class : (name : List ℕ) (super cls : ℕ) → Doing (ℕ × Bool)
check_class name super cls o =
    if cls == 0
    then (err (class_allocation_failed name), asked o)
    else (ok (cls, true), logged (allocated cls super name) o)

unfoldable pub ensure_class : ObjcRuntime → (name superclass_name : List ℕ) → Doing (ℕ × Bool)
ensure_class rt name superclass_name o =
    let existing = rt.get_class o.calls name in
    let o₁ : Objc = asked o in
    let super_cls = rt.get_class o₁.calls superclass_name in
    let o₂ : Objc = asked o₁ in
    if existing == 0
    then check_class name super_cls (rt.allocate_class_pair o₂.calls super_cls name) o₂
    else (ok (existing, false), o₁)

unfoldable pub add_or_replace :
    ObjcRuntime → (cls : ℕ) → MethodEntry → (fresh : Bool) → Doing (Unit {0})
add_or_replace rt cls m true o =
    if rt.add_method o.calls cls m
    then (ok tt, logged (added cls m) o)
    else (err (method_add_failed m.selector), asked o)
add_or_replace rt cls m false o = (ok tt, logged (replaced cls m) o)

abbrev pub target : ObjcRuntime → (cls : ℕ) → MethodEntry → ℕ
target rt cls m = if m.meta then rt.metaclass cls else cls

unfoldable pub add_all :
    ObjcRuntime → (cls : ℕ) → List MethodEntry → (fresh : Bool) → Doing (Unit {0})
add_all rt cls [] fresh = pure tt
add_all rt cls (m ∷ ms) fresh =
    add_or_replace rt (target rt cls m) m fresh >> add_all rt cls ms fresh

unfoldable pub register_fresh : (cls : ℕ) (fresh : Bool) → Doing (Unit {0})
register_fresh cls true = modify (logged (registered cls))
register_fresh cls false = pure tt

-- What the four functions below do with their methods.
unfoldable pub install_class :
    ObjcRuntime → (name superclass_name : List ℕ) → List MethodEntry → Doing (Unit {0})
install_class rt name superclass_name methods = ensure_class rt name superclass_name >>= λ r.
    add_all rt r.0 methods r.1 >> register_fresh r.0 r.1

abbrev pub nsapplication_methods : List MethodEntry
nsapplication_methods =
    on_meta (codes "sharedApplication") shared_application_imp
    ∷ on_class (codes "run") run_imp
    ∷ on_class (codes "terminate:") application_terminate_imp
    ∷ []

unfoldable pub install_nsapplication : ObjcRuntime → Doing (Unit {0})
install_nsapplication rt =
    install_class rt (codes "NSApplication") (codes "NSObject") nsapplication_methods

abbrev pub nswindow_methods : List MethodEntry
nswindow_methods =
    on_class (codes "initWithContentRect:styleMask:backing:defer:") window_init_imp
    ∷ on_class (codes "setTitle:") window_set_title_imp
    ∷ on_class (codes "setDelegate:") window_set_delegate_imp
    ∷ on_class (codes "makeKeyAndOrderFront:") window_make_key_and_order_front_imp
    ∷ on_class (codes "frame") window_frame_imp
    ∷ on_class (codes "setFrame:display:") window_set_frame_display_imp
    ∷ on_class (codes "orderOut:") window_order_out_imp
    ∷ on_class (codes "close") window_close_imp
    ∷ on_class (codes "contentView") window_content_view_imp
    ∷ on_class (codes "center") window_center_imp
    ∷ on_class (codes "styleMask") window_style_mask_imp
    ∷ []

unfoldable pub install_nswindow : ObjcRuntime → Doing (Unit {0})
install_nswindow rt = install_class rt (codes "NSWindow") (codes "NSResponder") nswindow_methods

abbrev pub nsview_methods : List MethodEntry
nsview_methods =
    on_class (codes "setWantsLayer:") view_set_wants_layer_imp
    ∷ on_class (codes "wantsLayer") view_wants_layer_imp
    ∷ on_class (codes "layer") view_layer_imp
    ∷ on_class (codes "setLayer:") view_set_layer_imp
    ∷ on_class (codes "frame") view_frame_imp
    ∷ on_class (codes "bounds") view_bounds_imp
    ∷ on_class (codes "window") view_window_imp
    ∷ []

unfoldable pub install_nsview : ObjcRuntime → Doing (Unit {0})
install_nsview rt = install_class rt (codes "NSView") (codes "NSResponder") nsview_methods

abbrev pub nsscreen_methods : List MethodEntry
nsscreen_methods =
    on_meta (codes "screens") screens_func_imp
    ∷ on_meta (codes "mainScreen") main_screen_func_imp
    ∷ on_class (codes "frame") screen_frame_imp
    ∷ on_class (codes "backingScaleFactor") screen_backing_scale_factor_imp
    ∷ []

unfoldable pub install_nsscreen : ObjcRuntime → Doing (Unit {0})
install_nsscreen rt = install_class rt (codes "NSScreen") (codes "NSObject") nsscreen_methods

unfoldable pub install : ObjcRuntime → Doing (Unit {0})
install rt =
    install_nsapplication rt >> install_nswindow rt >> install_nsview rt >> install_nsscreen rt
