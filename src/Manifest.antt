-- ===== src/Manifest.antt =====
-- The global manifest, src/dto/manifest.rs: the configuration that the gateway is started with.
-- `Value` stands for `serde_json::Value`, which the manifest only carries. A u16 or u64 is its number.
pub mod Origins
pub mod Cdn
pub mod Validation
unfoldable pub use Origins.*
unfoldable pub use Cdn.*
use rendermesh.Base.{ℕ, Option, Text, TextMap}

pub record RuntimeConfig : Type 0 where
  pub local_store_dir : Text
  pub sync_interval_seconds : ℕ

pub record HostConfig : Type 0 where
  pub origin : Text

pub record RenderMeshManifest (Value : Type 0) : Type 0 where
  pub version : ℕ
  pub runtime : RuntimeConfig
  pub origins : TextMap (OriginConfig Value)
  pub hosts : TextMap HostConfig
