-- ===== src/Templates.antt =====
-- Compiling the templates of an origin, src/services/template_store.rs. The template engine and the
-- UTF-8 decoder are parameters; rendering is in Gateway/Stores.
pub mod Tracking
use rendermesh.Base.{
  ℕ, Bool, Option, none, some, List, [], ◌∷◌, ◌++◌, Text, TextMap, get, insert, unwrap_or,
  if◌then◌else◌, Result, ok, err, ◌>>=◌, ok_or,
}
use rendermesh.Edge.Hooks.{is_html}
use rendermesh.Freshness.{OriginFreshnessDiff}
use rendermesh.Mirror.{Files, LocalObject, MirrorError, checked, read_object}
use rendermesh.ObjectPaths.{origin_dir}

-- The operations of the engine's registry that compiling calls; registering fails where the
-- template does not parse.
pub record TemplateEngine (Registry : Type 0) : Type 0 where
  pub new_registry : Registry
  pub unregister_template : Registry → Text → Registry
  pub register_template_string : Registry → Text → Text → Option Registry

pub data TemplateLoadError : Type 0 where
  mirror_failed : MirrorError → TemplateLoadError
  not_utf8 not_compiled : Text → TemplateLoadError

abbrev pub mirrored : {A : Type 0} → Result MirrorError A → Result TemplateLoadError A
mirrored (ok a) = ok a
mirrored (err e) = err (mirror_failed e)

-- `OriginFreshnessDiff::changed_paths`
unfoldable pub changed_paths : OriginFreshnessDiff → List Text
changed_paths diff = diff.added ++ diff.modified

module _ {Registry : Type 0} (engine : TemplateEngine Registry)
    (from_utf8 : List ℕ → Option Text) where
  unfoldable pub register_body : Registry → Text → Option Text → Result TemplateLoadError Registry
  register_body registry key none = err (not_utf8 key)
  register_body registry key (some body) =
      ok_or (engine.register_template_string registry key body) (not_compiled key)

  -- The loop `for key in &diff.removed`.
  unfoldable pub unregister_all : Registry → List Text → Registry
  unregister_all registry [] = registry
  unregister_all registry (key ∷ keys) =
      unregister_all (engine.unregister_template registry key) keys

  -- What an update does with a changed key and its object.
  unfoldable pub compile_object :
      Registry → Text → Option LocalObject → Result TemplateLoadError Registry
  unfolding register_body
  compile_object registry key none = ok (engine.unregister_template registry key)
  compile_object registry key (some object) =
      if is_html key object.metadata.content_type
      then register_body registry key (from_utf8 object.body)
      else ok (engine.unregister_template registry key)

  -- What a first load does with a key and its object.
  unfoldable pub load_object :
      Registry → Text → Option LocalObject → Result TemplateLoadError Registry
  unfolding register_body
  load_object registry key none = ok registry
  load_object registry key (some object) =
      if is_html key object.metadata.content_type
      then register_body registry key (from_utf8 object.body)
      else ok registry

  module _ (read : Text → Result MirrorError (Option LocalObject)) where
    -- The loop `for key in diff.changed_paths()`.
    unfoldable pub compile_changed : Registry → List Text → Result TemplateLoadError Registry
    unfolding compile_object
    compile_changed registry [] = ok registry
    compile_changed registry (key ∷ keys) = mirrored (read key) >>= λ object.
        compile_object registry key object >>= λ next. compile_changed next keys

    -- The loop `for key in files`.
    unfoldable pub load_files : Registry → List Text → Result TemplateLoadError Registry
    unfolding load_object
    load_files registry [] = ok registry
    load_files registry (key ∷ keys) = mirrored (read key) >>= λ object.
        load_object registry key object >>= λ next. load_files next keys

  unfoldable pub compile_template_update_from_mirror :
      TextMap Registry
      → Text
      → Text
      → Files
      → Text
      → OriginFreshnessDiff
      → Result TemplateLoadError Registry
  unfolding compile_changed unregister_all changed_paths
  compile_template_update_from_mirror origins origin_id mirror_origin_id files root diff =
      let registry = unwrap_or (get origin_id origins) engine.new_registry in
      compile_changed (read_object files root mirror_origin_id)
        (unregister_all registry diff.removed) (changed_paths diff)

  -- `load_origin_templates`; the walk over the origin's directory, `mirror_files`, is a parameter.
  unfoldable pub load_origin_templates :
      (Text → Result MirrorError (List Text))
      → TextMap Registry
      → Text
      → Files
      → Text
      → Result TemplateLoadError (TextMap Registry)
  unfolding load_files
  load_origin_templates mirror_files origins origin_id files root =
      mirrored (checked (origin_dir root origin_id)) >>= λ dir.
      mirrored (mirror_files dir) >>= λ keys.
      load_files (read_object files root origin_id) engine.new_registry keys >>= λ registry.
      ok (insert origin_id registry origins)

unfoldable pub set_origin_registry :
    {Registry : Type 0} → TextMap Registry → Text → Registry → TextMap Registry
set_origin_registry origins origin_id registry = insert origin_id registry origins
