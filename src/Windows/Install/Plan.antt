-- ===== src/Windows/Install/Plan.antt =====
-- The classes that `install` of src/bridge/swizzle.rs is to make, and how it may end.
use vulkan_cocoa_core.Common.{ℕ, ◌≡◌, ◌≢◌, ◌++◌, List, [], ◌∷◌, false, if◌then◌else◌}
use vulkan_cocoa_core.Air.Tags.{codes}
use vulkan_cocoa_core.Windows.Install.{
  SwizzleError, class_allocation_failed, method_add_failed, MethodEntry, ObjcRuntime, ClassCall,
  allocated, registered, added, replaced, nsapplication_methods, nswindow_methods, nsview_methods,
  nsscreen_methods,
}

-- The class that a method goes to.
abbrev pub class_of : ObjcRuntime → (cls : ℕ) → MethodEntry → ℕ
class_of rt cls m = if m.meta then rt.metaclass cls else cls

-- The log after each of the methods was added, or replaced.
abbrev pub with_all :
    ObjcRuntime
    → (ℕ → MethodEntry → ClassCall)
    → (cls : ℕ) → List MethodEntry
    → List ClassCall
    → List ClassCall
with_all rt call cls [] log = log
with_all rt call cls (m ∷ ms) log = with_all rt call cls ms (call (class_of rt cls m) m ∷ log)

-- A class that is to be there.
pub record ClassPlan : Type 0 where
  pub name : List ℕ
  pub superclass : List ℕ
  pub methods : List MethodEntry

abbrev pub nsapplication : ClassPlan
nsapplication = record {
  name = codes "NSApplication";
  superclass = codes "NSObject";
  methods = nsapplication_methods;
}

abbrev pub nswindow : ClassPlan
nswindow = record {
  name = codes "NSWindow";
  superclass = codes "NSResponder";
  methods = nswindow_methods;
}

abbrev pub nsview : ClassPlan
nsview = record {
  name = codes "NSView";
  superclass = codes "NSResponder";
  methods = nsview_methods;
}

abbrev pub nsscreen : ClassPlan
nsscreen = record {
  name = codes "NSScreen";
  superclass = codes "NSObject";
  methods = nsscreen_methods;
}

abbrev pub plan : List ClassPlan
plan = nsapplication ∷ nswindow ∷ nsview ∷ nsscreen ∷ []

-- The runtime does not know the class; it was asked for one on top of the superclass and gave `cls`,
-- or null.
pub record Allocated (rt : ObjcRuntime) (c : ClassPlan) (super cls : ℕ) : Type 0 where
  pub unknown : (n : ℕ) × (rt.get_class n c.name ≡ 0)
  pub on_top : (n : ℕ) × (rt.get_class n c.superclass ≡ super)
  pub gave : (n : ℕ) × (rt.allocate_class_pair n super c.name ≡ cls)

-- These classes, the last one first, were installed between two logs: a new class is allocated by its
-- name, gets all of its methods, and only then is registered; of the one that the runtime knows by
-- the name all are replaced.
pub data Installed (rt : ObjcRuntime) (before : List ClassCall)
    : List ClassPlan → List ClassCall → Type 0 where
  none_yet : Installed rt before [] before
  fresh_class :
      {classes : List ClassPlan} {log : List ClassCall} (c : ClassPlan) (super cls : ℕ)
      → Allocated rt c super cls
      → cls ≢ 0
      → Installed rt before classes log
      → Installed rt before
          (c ∷ classes)
          (registered cls ∷ with_all rt added cls c.methods (allocated cls super c.name ∷ log))
  known_class :
      {classes : List ClassPlan} {log : List ClassCall} (c : ClassPlan) (cls n : ℕ)
      → rt.get_class n c.name ≡ cls
      → cls ≢ 0
      → Installed rt before classes log
      → Installed rt before (c ∷ classes) (with_all rt replaced cls c.methods log)

-- The classes in their order, with those first that are given last one first.
abbrev pub onto : List ClassPlan → List ClassPlan → List ClassPlan
onto [] cs = cs
onto (d ∷ ds) cs = onto ds (d ∷ cs)

-- How an error ends `install` of these classes: with those before one of them installed, that one was
-- not allocated; or it was, one of its methods was refused, and it has the methods before that one
-- and is not registered.
pub data Stopped (rt : ObjcRuntime) (before : List ClassCall) (classes : List ClassPlan)
    : SwizzleError → List ClassCall → Type 0 where
  between :
      {log : List ClassCall} (done rest : List ClassPlan) (c : ClassPlan) (super : ℕ)
      → classes ≡ onto done (c ∷ rest)
      → Installed rt before done log
      → Allocated rt c super 0
      → Stopped rt before classes (class_allocation_failed c.name) log
  within :
      {log : List ClassCall} (done rest : List ClassPlan) (c : ClassPlan) (super cls : ℕ)
      (first left : List MethodEntry) (m : MethodEntry) (n : ℕ)
      → classes ≡ onto done (c ∷ rest)
      → Installed rt before done log
      → Allocated rt c super cls
      → cls ≢ 0
      → c.methods ≡ first ++ (m ∷ left)
      → rt.add_method n (class_of rt cls m) m ≡ false
      → Stopped rt before classes
          (method_add_failed m.selector)
          (with_all rt added cls first (allocated cls super c.name ∷ log))
