-- ===== src/Manifest/Origins.antt =====
-- The origins of a manifest and the accessors of `OriginConfig`, src/dto/manifest.rs.
use rendermesh.Base.{ℕ, Option, Text}
use rendermesh.Manifest.Cdn.{CdnConfig}

pub record S3OriginConfig (Value : Type 0) : Type 0 where
  pub bucket : Text
  pub endpoint_env : Text
  pub region_env : Text
  pub access_key_id_env : Option Text
  pub secret_access_key_env : Option Text
  pub force_path_style_env : Option Text
  pub sync_interval_seconds : Option ℕ
  pub activation_barrier_path : Option Text
  pub cdn : Option CdnConfig
  pub edge_context : Option Value

pub record LocalOriginConfig (Value : Type 0) : Type 0 where
  pub path : Text
  pub sync_interval_seconds : Option ℕ
  pub activation_barrier_path : Option Text
  pub cdn : Option CdnConfig
  pub edge_context : Option Value

pub data OriginConfig (Value : Type 0) : Type 0 where
  s3 : S3OriginConfig Value → OriginConfig Value
  local : LocalOriginConfig Value → OriginConfig Value

module _ {Value : Type 0} where
  unfoldable pub sync_interval_seconds : OriginConfig Value → Option ℕ
  sync_interval_seconds (s3 origin) = origin.sync_interval_seconds
  sync_interval_seconds (local origin) = origin.sync_interval_seconds

  unfoldable pub edge_context_bucket : OriginConfig Value → Text → Text
  edge_context_bucket (s3 origin) origin_id = origin.bucket
  edge_context_bucket (local origin) origin_id = origin_id

  unfoldable pub cdn_of : OriginConfig Value → Option CdnConfig
  cdn_of (s3 origin) = origin.cdn
  cdn_of (local origin) = origin.cdn

  unfoldable pub activation_barrier_path : OriginConfig Value → Option Text
  activation_barrier_path (s3 origin) = origin.activation_barrier_path
  activation_barrier_path (local origin) = origin.activation_barrier_path

  unfoldable pub edge_context_of : OriginConfig Value → Option Value
  edge_context_of (s3 origin) = origin.edge_context
  edge_context_of (local origin) = origin.edge_context
