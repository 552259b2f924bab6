-- ===== src/Windows/Install/Ordered.antt =====
-- In which order `install` calls the Objective-C runtime.
use vulkan_cocoa_core.Common.{
  ℕ, ◌+◌, ◌≡◌, ◌≢◌, ◌++◌, ==_iff, arith, refl, sym, ap, ◌∙◌, subst, List, [], ◌∷◌, true, false,
  ◌==◌, Bool-cases, inl, inr,
}
use vulkan_cocoa_core.Machine.{Run}
use vulkan_cocoa_core.Machine.Stateful.{Ends, returns, fails, Ends-then, then_do}
use vulkan_cocoa_core.Windows.Install.{
  SwizzleError, method_add_failed, MethodEntry, ObjcRuntime, ClassCall, allocated, registered,
  added, replaced, Objc, asked, logged, check_class, ensure_class, add_or_replace, target, add_all,
  register_fresh, install_class, install_nsapplication, install_nswindow, install_nsview,
  install_nsscreen, install,
}
use vulkan_cocoa_core.Windows.Install.Plan.{
  class_of, with_all, ClassPlan, nsapplication, nswindow, nsview, nsscreen, plan, Allocated,
  Installed, none_yet, fresh_class, known_class, onto, Stopped, between, within,
}

module _ (rt : ObjcRuntime) (cls : ℕ) where
  -- Adding to a new class: the methods so far are those before the one that was refused.
  add_all-fresh :
      (R : SwizzleError → List ClassCall → Type 0) (ms : List MethodEntry) (o : Objc)
      → ((first left : List MethodEntry) (m : MethodEntry) (n : ℕ)
          → ms ≡ first ++ (m ∷ left)
          → rt.add_method n (class_of rt cls m) m ≡ false
          → R (method_add_failed m.selector) (with_all rt added cls first o.log))
      → Ends
          (λ _ o'. o'.log ≡ with_all rt added cls ms o.log)
          (λ e o'. R e o'.log)
          (add_all rt cls ms true o)
  unfolding add_all add_or_replace
  add_all-fresh R [] o stop = returns refl
  add_all-fresh R (m ∷ ms) o stop = elim (Bool-cases (rt.add_method o.calls (target rt cls m) m)) [
    | inl t ↦ rw t (
        add_all-fresh R ms (logged (added (target rt cls m) m) o)
          λ first left m' n e. stop (m ∷ first) left m' n (ap (◌∷◌ m) e))
    | inr f ↦ rw f (fails (stop [] ms m o.calls refl f))
  ]

  add_all-known :
      (R : SwizzleError → List ClassCall → Type 0) (ms : List MethodEntry) (o : Objc)
      → Ends
          (λ _ o'. o'.log ≡ with_all rt replaced cls ms o.log)
          (λ e o'. R e o'.log)
          (add_all rt cls ms false o)
  unfolding add_all add_or_replace
  add_all-known R [] o = returns refl
  add_all-known R (m ∷ ms) o = add_all-known R ms (logged (replaced (target rt cls m) m) o)

ne_of_false : (h : ℕ) → (h == 0) ≡ false → h ≢ 0
ne_of_false h f z = ground (arith, f, (==_iff h 0).1 z)

module _ (rt : ObjcRuntime) (before : List ClassCall) (classes done rest : List ClassPlan)
    (c : ClassPlan) (at : classes ≡ onto done (c ∷ rest)) where
  abbrev Ended : Run SwizzleError (Unit {0}) × Objc → Type 0
  Ended =
      Ends (λ _ o. Installed rt before (c ∷ done) o.log) (λ e o. Stopped rt before classes e o.log)

  methods-fresh :
      (super cls : ℕ) (log : List ClassCall) (o : Objc)
      → Allocated rt c super cls
      → cls ≢ 0
      → Installed rt before done log
      → o.log ≡ allocated cls super c.name ∷ log
      → Ended (then_do (add_all rt cls c.methods true o) (λ _. register_fresh cls true))
  unfolding register_fresh
  methods-fresh super cls log o made has is e =
      Ends-then
        (add_all-fresh rt cls (Stopped rt before classes) c.methods o λ first left m n split no.
          subst
            (λ l.
              Stopped rt before classes (method_add_failed m.selector)
                (with_all rt added cls first l))
            (sym e) (within done rest c super cls first left m n at is made has split no))
        λ _ o' e'. returns (
          subst (λ l. Installed rt before (c ∷ done) (registered cls ∷ l))
            (sym (e' ∙ ap (with_all rt added cls c.methods) e))
            (fresh_class c super cls made has is))

  methods-known :
      (cls n : ℕ) (o : Objc)
      → rt.get_class n c.name ≡ cls
      → cls ≢ 0
      → Installed rt before done o.log
      → Ended (then_do (add_all rt cls c.methods false o) (λ _. register_fresh cls false))
  unfolding register_fresh
  methods-known cls n o known has is =
      Ends-then (add_all-known rt cls (Stopped rt before classes) c.methods o) λ _ o' e'.
        returns (subst (Installed rt before (c ∷ done)) (sym e') (known_class c cls n known has is))

  install_class-Ended :
      (o : Objc)
      → Installed rt before done o.log
      → Ended (install_class rt c.name c.superclass c.methods o)
  unfolding install_class ensure_class check_class
  install_class-Ended o is =
      let existing : ℕ = rt.get_class o.calls c.name in
      let super : ℕ = rt.get_class (o.calls + 1) c.superclass in
      let o₂ : Objc = asked (asked o) in
      let made : ℕ = rt.allocate_class_pair o₂.calls super c.name in
      elim (Bool-cases (existing == 0)) [
        | inl z ↦
            let new : Allocated rt c super made = record {
              unknown = (o.calls, (==_iff existing 0).0 z);
              on_top = (o.calls + 1, refl);
              gave = (o₂.calls, refl);
            } in
            elim (Bool-cases (made == 0)) [
              | inl z' ↦
                  let null = (==_iff made 0).0 z' in
                  rw z (
                    rw z' (
                      fails
                        (between done rest c super at is (subst (Allocated rt c super) null new))))
              | inr f' ↦ rw z (
                  rw f' (
                    methods-fresh super made o.log (logged (allocated made super c.name) o₂) new
                      (ne_of_false made f') is refl))
            ]
        | inr f ↦ rw f (methods-known existing o.calls (asked o) refl (ne_of_false existing f) is)
      ]

-- Where `install` returns, NSApplication, NSWindow, NSView and NSScreen were installed in this order,
-- each in full before the next: one that the runtime does not know allocated by its name, given all
-- its methods and then registered, a known one with all its methods replaced. Where it reports an
-- error, the classes before the one that the error is of were installed, and that one was either not
-- allocated, or has the methods before the one that was refused and is not registered.
pub install-Installed :
    (rt : ObjcRuntime) (o : Objc)
    → Ends
        (λ _ o'. Installed rt o.log (nsscreen ∷ nsview ∷ nswindow ∷ nsapplication ∷ []) o'.log)
        (λ e o'. Stopped rt o.log plan e o'.log)
        (install rt o)
unfolding install install_nsapplication install_nswindow install_nsview install_nsscreen
install-Installed rt o =
    Ends-then
      (Ends-then
        (Ends-then
          (install_class-Ended rt o.log plan [] (nswindow ∷ nsview ∷ nsscreen ∷ []) nsapplication
            refl o none_yet)
          λ _ o₁ is.
            install_class-Ended rt o.log plan (nsapplication ∷ []) (nsview ∷ nsscreen ∷ []) nswindow
              refl o₁ is)
        λ _ o₂ is.
          install_class-Ended rt o.log plan (nswindow ∷ nsapplication ∷ []) (nsscreen ∷ []) nsview
            refl o₂ is)
      λ _ o₃ is.
        install_class-Ended rt o.log plan (nsview ∷ nswindow ∷ nsapplication ∷ []) [] nsscreen refl
          o₃ is
