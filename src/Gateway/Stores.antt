-- ===== src/Gateway/Stores.antt =====
-- The stores that a request reads: src/services/edge_config_store.rs, and `TemplateStore::render`
-- of src/services/template_store.rs. The compiled registry of an origin is the `Registry` of the
-- template engine; `has_template` and `render_template` are its operations.
use rendermesh.Base.{
  ℕ, Bool, Option, none, some, List, [], ◌∷◌, Text, TextMap, get, insert, if◌then◌else◌, Result, ok,
  err,
}
use rendermesh.Edge.{EdgeConfig}
use rendermesh.ObjectPaths.{normalize_object_path}

pub data EdgeConfigEntry : Type 0 where
  valid : EdgeConfig → EdgeConfigEntry
  invalid : Text → EdgeConfigEntry

pub data EdgeConfigStoreError : Type 0 where
  missing_config : EdgeConfigStoreError
  invalid_config : Text → EdgeConfigStoreError

abbrev pub EdgeConfigStore : Type 0
EdgeConfigStore = TextMap EdgeConfigEntry

-- `EdgeConfigStore::from_configs`
unfoldable pub from_configs : TextMap EdgeConfig → EdgeConfigStore
from_configs [] = []
from_configs ((origin_id, config) ∷ configs) =
    insert origin_id (valid config) (from_configs configs)

-- `EdgeConfigStore::get`
unfoldable pub get_config : EdgeConfigStore → Text → Result EdgeConfigStoreError EdgeConfig
get_config configs origin_id = elim (get origin_id configs) [
  | some (valid config) ↦ ok config
  | some (invalid error) ↦ err (invalid_config error)
  | none ↦ err missing_config
]

unfoldable pub set_valid : EdgeConfigStore → Text → EdgeConfig → EdgeConfigStore
set_valid configs origin_id config = insert origin_id (valid config) configs

unfoldable pub set_invalid : EdgeConfigStore → Text → Text → EdgeConfigStore
set_invalid configs origin_id error = insert origin_id (invalid error) configs

pub data TemplateStoreError : Type 0 where
  not_html render_failed : TemplateStoreError

-- The registry of the template engine, as far as rendering asks it.
pub record Engine (Registry Value : Type 0) : Type 0 where
  pub has_template : Registry → Text → Bool
  pub render_template : Registry → Text → Value → Option (List ℕ)

module _ {Registry Value : Type 0} (engine : Engine Registry Value) where
  render_with : Registry → Text → Value → Result TemplateStoreError (List ℕ)
  render_with registry key params =
      if engine.has_template registry key
      then (elim (engine.render_template registry key params) [
        | some body ↦ ok body
        | none ↦ err render_failed
      ])
      else err not_html

  -- `TemplateStore::render`
  unfoldable pub render :
      TextMap Registry → Text → Text → Value → Result TemplateStoreError (List ℕ)
  unfolding render_with
  render origins origin_id path params = elim (normalize_object_path path) [
    | err error ↦ err not_html
    | ok key ↦ elim (get origin_id origins) [
      | none ↦ err not_html
      | some registry ↦ render_with registry key params
    ]
  ]
