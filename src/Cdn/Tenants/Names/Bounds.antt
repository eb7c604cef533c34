-- ===== src/Cdn/Tenants/Names/Bounds.antt =====
-- The shape of the tenant names of src/repositories/cloudfront_saas_cdn.rs.
use rendermesh.Base.{
  ◌≡◌, refl, ℕ, zero, suc, ◌*◌, ◌/◌, ◌%◌, ◌≤◌, ◌<◌, Bool, true, ◌||◌, List, [], ◌∷◌, ◌++◌, map,
  arith, Text, text, utf8, all, all-append, All, length, length-append, ◌==◌, is_ascii_alphanumeric,
}
use rendermesh.Cdn.Tenants.Names.{take, host_character, deterministic_tenant_name}
use rendermesh.ObjectPaths.{hex_digit, encode_hex}

-- A character of a tenant name.
abbrev pub is_name_character : ℕ → Bool
is_name_character c = is_ascii_alphanumeric c || c == b'-' || c == b'.'

abbrev IsByte : ℕ → Type 0
IsByte b = b < 256

host_character-is_name_character : (c : ℕ) → is_name_character (host_character c) ≡ true
unfolding host_character
host_character-is_name_character c = ground arith

hex_digit-is_name_character : (n : ℕ) → n < 16 → is_name_character (hex_digit n) ≡ true
unfolding is_ascii_alphanumeric
hex_digit-is_name_character n h = ground arith

all-take : (p : ℕ → Bool) (n : ℕ) (xs : List ℕ) → all p xs ≡ true → all p (take n xs) ≡ true
unfolding take
all-take p zero xs h = refl
all-take p (suc n) [] h = refl
all-take p (suc n) (x ∷ xs) h = ground (arith, all-take p n xs)

all-host : (host : Text) → all is_name_character (map host_character host) ≡ true
all-host [] = refl
all-host (c ∷ host) = ground (arith, host_character-is_name_character c, all-host host)

all-encode_hex :
    (bytes : List ℕ) → All IsByte bytes → all is_name_character (encode_hex bytes) ≡ true
unfolding encode_hex
all-encode_hex [] h = refl
all-encode_hex (b ∷ bytes) (h, hs) =
    let high = hex_digit-is_name_character (b / 16) (omega arith) in
    let low = hex_digit-is_name_character (b % 16) (omega arith) in
    let later = all-encode_hex bytes hs in rw (high, low) later

length-encode_hex : (bytes : List ℕ) → length (encode_hex bytes) ≡ 2 * length bytes
unfolding encode_hex
length-encode_hex [] = refl
length-encode_hex (b ∷ bytes) = omega (arith, length-encode_hex bytes)

length-take : (n : ℕ) (xs : List ℕ) → n ≤ length xs → length (take n xs) ≡ n
unfolding take
length-take zero xs h = refl
length-take (suc n) [] h = absurd (omega arith)
length-take (suc n) (x ∷ xs) h = omega (arith, length-take n xs)

length-take_le : (n : ℕ) (xs : List ℕ) → length (take n xs) ≤ n
unfolding take
length-take_le zero xs = omega arith
length-take_le (suc n) [] = omega arith
length-take_le (suc n) (x ∷ xs) = omega (arith, length-take_le n xs)

joined_bounds :
    (front back : Text)
    → length front ≤ 100
    → length back ≡ 16
    → all is_name_character front ≡ true
    → all is_name_character back ≡ true
    → (28 ≤ length (text "rendermesh-" ++ front ++ text "-" ++ back))
      × (length (text "rendermesh-" ++ front ++ text "-" ++ back) ≤ 128)
      × (all is_name_character (text "rendermesh-" ++ front ++ text "-" ++ back) ≡ true)
unfolding is_ascii_alphanumeric
joined_bounds front back short sixteen good good' =
    let lengths = length-append (front ++ text "-") back in
    let front_lengths = length-append front (text "-") in
    (
      omega (arith, lengths, front_lengths, sixteen),
      omega (arith, lengths, front_lengths, sixteen),
      rw
          (
            all-append is_name_character (front ++ text "-") back,
            all-append is_name_character front (text "-"),
            good,
          )
          good',
    )

-- If the digest is 32 bytes, as of SHA-256, then a tenant name has between 28 and 128 characters, and
-- every one is a letter, a digit, a dash or a dot, whatever the distribution and the host are.
pub deterministic_tenant_name_bounds :
    (sha256 : List ℕ → List ℕ) (distribution_id host : Text)
    → ((bytes : List ℕ) → length (sha256 bytes) ≡ 32)
    → ((bytes : List ℕ) → All IsByte (sha256 bytes))
    → (28 ≤ length (deterministic_tenant_name sha256 distribution_id host))
      × (length (deterministic_tenant_name sha256 distribution_id host) ≤ 128)
      × (all is_name_character (deterministic_tenant_name sha256 distribution_id host) ≡ true)
unfolding deterministic_tenant_name
deterministic_tenant_name_bounds sha256 distribution_id host size bytes =
    let seed = utf8 (distribution_id ++ 0 ∷ host) in
    let digest = sha256 seed in
    joined_bounds (take 100 (map host_character host)) (take 16 (encode_hex digest))
      (length-take_le 100 (map host_character host))
      (length-take 16 (encode_hex digest) (omega (arith, length-encode_hex digest, size seed)))
      (all-take is_name_character 100 (map host_character host) (all-host host))
      (all-take is_name_character 16 (encode_hex digest) (all-encode_hex digest (bytes seed)))
