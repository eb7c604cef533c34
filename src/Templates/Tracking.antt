-- ===== src/Templates/Tracking.antt =====
-- The compiled templates follow the mirror, src/services/template_store.rs.
use rendermesh.Base.{
  ◌≡◌, refl, sym, ap, ◌∙◌, inl, inr, ℕ, true, false, ◌||◌, Option, none, some, List, [], ◌∷◌, arith,
  Text, TextMap, get, member, unwrap_or, if◌then◌else◌, ◌===◌, Result, ok, err, ◌>>=◌, >>=-eq-ok,
  Bool-cases, member-append,
}
use rendermesh.Edge.Hooks.{is_html}
use rendermesh.Freshness.{OriginFreshnessDiff}
use rendermesh.Mirror.{Files, LocalObject, MirrorError, read_object}
use rendermesh.Templates.{
  TemplateEngine, mirrored, changed_paths, register_body, unregister_all, compile_object,
  compile_changed, compile_template_update_from_mirror,
}

-- What the engine documents of its registry: which text is registered under which name.
pub record IsRegistry {Registry : Type 0} (engine : TemplateEngine Registry)
    (template : Registry → Text → Option Text) : Type 0 where
  pub template_new : (k : Text) → template engine.new_registry k ≡ none
  pub template_unregister :
      (registry : Registry) (j k : Text)
      → template (engine.unregister_template registry j) k
        ≡ (if k === j then none else template registry k)
  pub template_register :
      (registry next : Registry) (j k body : Text)
      → engine.register_template_string registry j body ≡ some next
      → template next k ≡ (if k === j then some body else template registry k)

-- The template that the mirror has under a key: the text of an HTML object.
abbrev pub template_at :
    (List ℕ → Option Text) → Text → Result MirrorError (Option LocalObject) → Option Text
template_at from_utf8 key (ok (some object)) =
    if is_html key object.metadata.content_type then from_utf8 object.body else none
template_at from_utf8 key (ok none) = none
template_at from_utf8 key (err e) = none

mirrored-eq-ok :
    {A : Type 0} (result : Result MirrorError A) (a : A) → mirrored result ≡ ok a → result ≡ ok a
mirrored-eq-ok (ok b) a h = ground arith
mirrored-eq-ok (err e) a h = cc

module _ {Registry : Type 0} (engine : TemplateEngine Registry)
    (template : Registry → Text → Option Text) (laws : IsRegistry engine template)
    (from_utf8 : List ℕ → Option Text) where
  register_body-template :
      (registry next : Registry) (j k : Text) (body : Option Text)
      → register_body engine from_utf8 registry j body ≡ ok next
      → template next k ≡ (if k === j then body else template registry k)
  unfolding register_body
  register_body-template registry next j k none h = cc
  register_body-template registry next j k (some body) h =
      laws.template_register registry next j k body (ground arith)

  compile_object-template :
      (registry next : Registry) (j k : Text) (object : Option LocalObject)
      → compile_object engine from_utf8 registry j object ≡ ok next
      → template next k
        ≡ (if k === j then template_at from_utf8 j (ok object) else template registry k)
  unfolding compile_object
  compile_object-template registry next j k none h =
      ground (arith, laws.template_unregister registry j k)
  compile_object-template registry next j k (some object) h =
      elim (Bool-cases (is_html j object.metadata.content_type)) [
        | inl html ↦
            rw html
              (register_body-template registry next j k (from_utf8 object.body) (rw html at h))
        | inr other ↦
            rw other
              (ap (λ r. template r k) (sym (ground arith)) ∙ laws.template_unregister registry j k)
      ]

  unregister_all-template :
      (registry : Registry) (keys : List Text) (k : Text)
      → template (unregister_all engine from_utf8 registry keys) k
        ≡ (if member k keys then none else template registry k)
  unfolding unregister_all member
  unregister_all-template registry [] k = refl
  unregister_all-template registry (key ∷ keys) k =
      unregister_all-template (engine.unregister_template registry key) keys k
      ∙ ground (arith, laws.template_unregister registry key k)

  module _ (read : Text → Result MirrorError (Option LocalObject)) where
    compile_changed-template :
        (registry next : Registry) (keys : List Text) (k : Text)
        → compile_changed engine from_utf8 read registry keys ≡ ok next
        → template next k
          ≡ (if member k keys then template_at from_utf8 k (read k) else template registry k)
    unfolding compile_changed member
    compile_changed-template registry next [] k h = ground arith
    compile_changed-template registry next (key ∷ keys) k h =
        let (object, e1, h1) =
          >>=-eq-ok (mirrored (read key))
            (λ o. compile_object engine from_utf8 registry key o >>= λ n.
              compile_changed engine from_utf8 read n keys)
            h in
        let (mid, e2, h2) =
          >>=-eq-ok (compile_object engine from_utf8 registry key object)
            (λ n. compile_changed engine from_utf8 read n keys) h1 in
        let now = compile_object-template registry mid key k object e2 in
        let later = compile_changed-template mid next keys k h2 in
        elim (Bool-cases (k === key)) [
          | inl same ↦
              let equal : k ≡ key = ground arith in
              let here : template_at from_utf8 k (read k) ≡ template_at from_utf8 key (ok object) =
                ap (λ j. template_at from_utf8 j (read j)) equal
                ∙ ap (template_at from_utf8 key) (mirrored-eq-ok (read key) object e1) in
              ground arith
          | inr other ↦ ground arith
        ]

member-changed_paths :
    (k : Text) (diff : OriginFreshnessDiff)
    → member k (changed_paths diff) ≡ (member k diff.added || member k diff.modified)
unfolding changed_paths
member-changed_paths k diff = member-append k diff.added diff.modified

module _ {Registry : Type 0} (engine : TemplateEngine Registry)
    (template : Registry → Text → Option Text) (laws : IsRegistry engine template)
    (from_utf8 : List ℕ → Option Text) where
  -- If templates compile for an update, then the new registry has under a key exactly the template of
  -- the staged mirror, the text of the object if that is HTML and nothing else. For a key that was
  -- added or modified this holds whatever was registered; for one that was only removed, if the
  -- staged mirror no longer has a template there; and for any other, if the previous registry, or an
  -- empty one where the origin has none, already had that template.
  pub compile_template_update-template :
      (origins : TextMap Registry) (origin_id mirror_origin_id : Text) (files : Files) (root : Text)
      (diff : OriginFreshnessDiff) (next : Registry) (k : Text)
      → compile_template_update_from_mirror engine from_utf8 origins origin_id mirror_origin_id
          files root diff
        ≡ ok next
      → (member k diff.added ≡ false
          → member k diff.modified ≡ false
          → member k diff.removed ≡ true
          → template_at from_utf8 k (read_object files root mirror_origin_id k) ≡ none)
      → (member k diff.added ≡ false
          → member k diff.modified ≡ false
          → member k diff.removed ≡ false
          → template_at from_utf8 k (read_object files root mirror_origin_id k)
            ≡ template (unwrap_or (get origin_id origins) engine.new_registry) k)
      → template next k ≡ template_at from_utf8 k (read_object files root mirror_origin_id k)
  unfolding compile_template_update_from_mirror
  compile_template_update-template origins origin_id mirror_origin_id files root diff next k h gone
        kept =
      let registry = unwrap_or (get origin_id origins) engine.new_registry in
      let cleared = unregister_all engine from_utf8 registry diff.removed in
      let changed =
        compile_changed-template engine template laws from_utf8
          (read_object files root mirror_origin_id) cleared next (changed_paths diff) k h in
      let removed =
        unregister_all-template engine template laws from_utf8 registry diff.removed k in
      ground (arith, member-changed_paths k diff)
