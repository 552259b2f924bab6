-- ===== src/Air/Tags/Occurs.antt =====
-- On the tags that `scan_known_air_tags` reports, and those that occur in the body.
use vulkan_cocoa_core.Common.{
  ◌≡◌, refl, ap, ◌∙◌, ◌↔◌, inl, inr, List, [], ◌∷◌, ◌++◌, ℕ, Bool, true, false, ◌&&◌, ◌||◌, arith,
  Bool-cases,
}
use vulkan_cocoa_core.Air.Syntax.{
  DetectedAirFeature, kernel_entry_point, vertex_entry_point, fragment_entry_point, compile_options,
  language_version, argument_buffer_usage,
}
use vulkan_cocoa_core.Air.Tags.{
  codes, starts_with, contains, tags, features_in, scan_known_air_tags,
}

-- `tag` stands somewhere in `body`.
abbrev pub Occurs : (tag body : List ℕ) → Type 0
Occurs tag body = (pre : List ℕ) × (post : List ℕ) × (body ≡ pre ++ (tag ++ post))

starts_with→prefix :
    (xs ys : List ℕ) → starts_with xs ys ≡ true → (post : List ℕ) × (ys ≡ xs ++ post)
unfolding starts_with
starts_with→prefix [] ys h = (ys, refl)
starts_with→prefix (x ∷ xs) [] h = cc
starts_with→prefix (x ∷ xs) (y ∷ ys) h =
    let (post, e) = starts_with→prefix xs ys (ground arith) in (post, ground arith)

starts_with-append : (xs post : List ℕ) → starts_with xs (xs ++ post) ≡ true
unfolding starts_with
starts_with-append [] post = refl
starts_with-append (x ∷ xs) post = ground (arith, starts_with-append xs post)

contains→Occurs : (tag body : List ℕ) → contains tag body ≡ true → Occurs tag body
unfolding contains
contains→Occurs tag [] h = let (post, e) = starts_with→prefix tag [] h in ([], post, e)
contains→Occurs tag (y ∷ ys) h = elim (Bool-cases (starts_with tag (y ∷ ys))) [
  | inl here ↦ let (post, e) = starts_with→prefix tag (y ∷ ys) here in ([], post, e)
  | inr there ↦
      let (pre, post, e) = contains→Occurs tag ys (rw there at h) in (y ∷ pre, post, ap (◌∷◌ y) e)
]

contains-append : (tag pre post : List ℕ) → contains tag (pre ++ (tag ++ post)) ≡ true
unfolding contains
contains-append tag (x ∷ pre) post = ground (arith, contains-append tag pre post)
contains-append [] [] [] = unfold starts_with in refl
contains-append [] [] (y ∷ post) = unfold starts_with in refl
contains-append (x ∷ tag) [] post = rw (starts_with-append (x ∷ tag) post)

feature_eq : DetectedAirFeature → DetectedAirFeature → Bool
feature_eq kernel_entry_point kernel_entry_point = true
feature_eq vertex_entry_point vertex_entry_point = true
feature_eq fragment_entry_point fragment_entry_point = true
feature_eq compile_options compile_options = true
feature_eq language_version language_version = true
feature_eq argument_buffer_usage argument_buffer_usage = true
feature_eq _ _ = false

-- The feature is in the list.
pub has : DetectedAirFeature → List DetectedAirFeature → Bool
has f [] = false
has f (g ∷ gs) = feature_eq g f || has f gs

-- The text that announces a feature.
pub tag_of : DetectedAirFeature → List ℕ
tag_of kernel_entry_point = codes "air.kernel"
tag_of vertex_entry_point = codes "air.vertex"
tag_of fragment_entry_point = codes "air.fragment"
tag_of compile_options = codes "air.compile_options"
tag_of language_version = codes "air.version"
tag_of argument_buffer_usage = codes "air.argument_buffer"

-- Some row of the table has the feature and a tag that is contained.
hits : DetectedAirFeature → List ℕ → List (List ℕ × DetectedAirFeature) → Bool
hits f body [] = false
hits f body ((tag, g) ∷ ts) = (feature_eq g f && contains tag body) || hits f body ts

has-features_in :
    (f : DetectedAirFeature) (body : List ℕ) (ts : List (List ℕ × DetectedAirFeature))
    → has f (features_in body ts) ≡ hits f body ts
unfolding has hits features_in
has-features_in f body [] = refl
has-features_in f body ((tag, g) ∷ ts) = ground (arith, has-features_in f body ts)

or_false : (c : Bool) → (c || false) ≡ c
or_false true = refl
or_false false = refl

hits-tags : (f : DetectedAirFeature) (body : List ℕ) → hits f body tags ≡ contains (tag_of f) body
unfolding hits tags tag_of feature_eq
hits-tags kernel_entry_point body = or_false (contains (codes "air.kernel") body)
hits-tags vertex_entry_point body = or_false (contains (codes "air.vertex") body)
hits-tags fragment_entry_point body = or_false (contains (codes "air.fragment") body)
hits-tags compile_options body = or_false (contains (codes "air.compile_options") body)
hits-tags language_version body = or_false (contains (codes "air.version") body)
hits-tags argument_buffer_usage body = or_false (contains (codes "air.argument_buffer") body)

has-scan :
    (f : DetectedAirFeature) (body : List ℕ)
    → has f (scan_known_air_tags body) ≡ contains (tag_of f) body
unfolding scan_known_air_tags
has-scan f body = has-features_in f body tags ∙ hits-tags f body

-- A feature is reported exactly when its tag occurs among the bytes of the body.
pub scan_known_air_tags_iff :
    (f : DetectedAirFeature) (body : List ℕ)
    → (has f (scan_known_air_tags body) ≡ true) ↔ Occurs (tag_of f) body
scan_known_air_tags_iff f body = (
  λ h. contains→Occurs (tag_of f) body (rw (has-scan f body) at h),
  λ (pre, post, e). rw (has-scan f body, e) (contains-append (tag_of f) pre post),
)
