-- ===== src/Hosts/Names/Laws.antt =====
-- `normalize_host` (src/services/manifest.rs) returns normal forms: valid, lower case, and fixed
-- by a second normalisation.
use mathlib.Core.List.{reverse-reverse}
use rendermesh.Base.{
  ℕ, ◌≡◌, refl, sym, ap, ◌∙◌, inl, inr, Bool, true, false, not, ◌||◌, Option, none, some, [], ◌∷◌,
  reverse, arith,
}
use rendermesh.Base.{
  ◌==◌, Text, trim, trim_end, to_ascii_lowercase, lower_code, is_whitespace, is_ascii_alphanumeric,
  split, all, all_of_all, all-split, all-reverse, drop_while-eq_self_of_all-not,
  rsplit_once-eq-none, is_empty, Bool-cases,
}
use rendermesh.Hosts.Names.{
  is_valid_host, is_valid_host_label, without_port, checked_host, normalize_host,
}

-- The characters of a valid host.
is_host_char : ℕ → Bool
unfolding is_ascii_alphanumeric
is_host_char c = is_ascii_alphanumeric c || c == b'-' || c == b'.'

label_chars : (label : Text) → is_valid_host_label label ≡ true → all is_host_char label ≡ true
unfolding is_valid_host_label is_host_char
label_chars label h =
    all_of_all (λ ch. is_ascii_alphanumeric ch || ch == b'-') is_host_char label
      (λ c e. ground arith) (ground arith)

host_chars : (host : Text) → is_valid_host host ≡ true → all is_host_char host ≡ true
unfolding is_valid_host is_host_char
host_chars host h =
    all-split is_host_char b'.' host
      (all_of_all is_valid_host_label (all is_host_char) (split b'.' host) label_chars
        (ground arith))
      refl

no_whitespace :
    (host : Text) → is_valid_host host ≡ true → all (λ c. not (is_whitespace c)) host ≡ true
unfolding is_host_char is_whitespace
no_whitespace host h =
    all_of_all is_host_char (λ c. not (is_whitespace c)) host (λ c e. ground arith)
      (host_chars host h)

no_colon : (host : Text) → is_valid_host host ≡ true → all (λ c. not (c == b':')) host ≡ true
unfolding is_host_char
no_colon host h =
    all_of_all is_host_char (λ c. not (c == b':')) host (λ c e. ground arith) (host_chars host h)

trim-eq_self : (s : Text) → all (λ c. not (is_whitespace c)) s ≡ true → trim s ≡ s
unfolding trim
trim-eq_self s h =
    ap trim_end (drop_while-eq_self_of_all-not is_whitespace s h)
    ∙ ap reverse (drop_while-eq_self_of_all-not is_whitespace (reverse s) (all-reverse _ s ∙ h))
    ∙ reverse-reverse s

lower_code_idem : (c : ℕ) → lower_code (lower_code c) ≡ lower_code c
unfolding lower_code
lower_code_idem c = ground arith

pub to_ascii_lowercase_idem :
    (s : Text) → to_ascii_lowercase (to_ascii_lowercase s) ≡ to_ascii_lowercase s
unfolding to_ascii_lowercase
to_ascii_lowercase_idem [] = refl
to_ascii_lowercase_idem (c ∷ s) = cc (lower_code_idem c, to_ascii_lowercase_idem s)

-- A normal form: a valid host in lower case.
abbrev pub IsHost : Text → Type 0
IsHost name = (is_valid_host name ≡ true) × (to_ascii_lowercase name ≡ name)

checked_host-IsHost : (o : Option Text) (name : Text) → checked_host o ≡ some name → IsHost name
unfolding checked_host
checked_host-IsHost none name h = cc
checked_host-IsHost (some host) name h =
    let lowered = to_ascii_lowercase (trim host) in
    elim (Bool-cases (is_valid_host lowered)) [
      | inl valid ↦
          let same : lowered ≡ name = ground arith in
          (
            ap is_valid_host (sym same) ∙ valid,
            ap to_ascii_lowercase (sym same) ∙ to_ascii_lowercase_idem (trim host) ∙ same,
          )
      | inr invalid ↦ ground arith
    ]

-- What `normalize_host` returns is a normal form.
pub normalize_host-IsHost : (header name : Text) → normalize_host header ≡ some name → IsHost name
unfolding normalize_host
normalize_host-IsHost header name h =
    checked_host-IsHost (without_port (trim header)) name (ground arith)

is_valid_host-nil : is_valid_host [] ≡ false
unfolding is_valid_host
is_valid_host-nil = refl

not_empty : (name : Text) → is_valid_host name ≡ true → is_empty name ≡ false
unfolding is_valid_host
not_empty name h = ground arith

without_port-eq-some : (name : Text) → is_valid_host name ≡ true → without_port name ≡ some name
unfolding without_port
without_port-eq-some name h = rw (rsplit_once-eq-none b':' name (no_colon name h), without_port)

-- A normal form is its own normalisation.
pub normalize_host-eq_self : (name : Text) → IsHost name → normalize_host name ≡ some name
unfolding normalize_host checked_host
normalize_host-eq_self name (valid, low) =
    rw (trim-eq_self name (no_whitespace name valid), not_empty name valid)
      (rw (without_port-eq-some name valid)
        (rw (trim-eq_self name (no_whitespace name valid), low, valid)))

-- Normalising a host twice is normalising it once.
pub normalize_host_idem :
    (header name : Text) → normalize_host header ≡ some name → normalize_host name ≡ some name
normalize_host_idem header name h =
    normalize_host-eq_self name (normalize_host-IsHost header name h)
