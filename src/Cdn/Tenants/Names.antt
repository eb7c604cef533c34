-- ===== src/Cdn/Tenants/Names.antt =====
-- The names that src/repositories/cloudfront_saas_cdn.rs makes for tenants and for invalidations.
-- SHA-256 is a parameter.
pub mod Bounds
pub mod Encoding
use rendermesh.Base.{
  ℕ, zero, suc, ◌/◌, ◌%◌, ◌||◌, List, [], ◌∷◌, ◌++◌, map, Text, text, utf8, length, ◌==◌,
  is_ascii_alphanumeric, if◌then◌else◌,
}
use rendermesh.ObjectPaths.{encode_hex}

-- The first items of a list.
unfoldable pub take {ℓ} : {A : Type ℓ} → ℕ → List A → List A
take zero xs = []
take (suc n) [] = []
take (suc n) (x ∷ xs) = x ∷ take n xs

unfoldable pub host_character : ℕ → ℕ
host_character c = if is_ascii_alphanumeric c || c == b'-' || c == b'.' then c else b'-'

-- `to_be_bytes` of an integer of this many bytes.
unfoldable pub to_be_bytes : ℕ → ℕ → List ℕ
to_be_bytes zero n = []
to_be_bytes (suc width) n = to_be_bytes width (n / 256) ++ (n % 256) ∷ []

-- What `hash_component` feeds to the digest.
unfoldable pub hash_component : List ℕ → List ℕ
unfolding to_be_bytes
hash_component value = to_be_bytes 8 (length value) ++ value

unfoldable pub hash_components : List Text → List ℕ
unfolding hash_component
hash_components [] = []
hash_components (path ∷ paths) = hash_component (utf8 path) ++ hash_components paths

-- The bytes whose digest is the caller reference. A digest that is fed in parts is that of all.
unfoldable pub reference_bytes : List ℕ → Text → ℕ → Text → List Text → List ℕ
unfolding hash_component hash_components to_be_bytes
reference_bytes namespace origin_id generation tenant_id paths =
    hash_component namespace
    ++ (hash_component (utf8 origin_id)
        ++ (to_be_bytes 8 generation
            ++ (hash_component (utf8 tenant_id)
                ++ (to_be_bytes 8 (length paths) ++ hash_components paths))))

module _ (sha256 : List ℕ → List ℕ) where
  unfoldable pub deterministic_tenant_name : Text → Text → Text
  unfolding take host_character
  deterministic_tenant_name distribution_id host =
      let hash = encode_hex (sha256 (utf8 (distribution_id ++ 0 ∷ host))) in
      text "rendermesh-" ++ take 100 (map host_character host) ++ text "-" ++ take 16 hash

  unfoldable pub invalidation_caller_reference : List ℕ → Text → ℕ → Text → List Text → Text
  unfolding reference_bytes
  invalidation_caller_reference namespace origin_id generation tenant_id paths =
      text "rendermesh-"
      ++ encode_hex (sha256 (reference_bytes namespace origin_id generation tenant_id paths))
