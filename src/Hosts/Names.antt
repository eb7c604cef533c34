-- ===== src/Hosts/Names.antt =====
-- `normalize_host` and its validity tests, src/services/manifest.rs.
pub mod Laws
use rendermesh.Base.{
  ℕ, Bool, true, false, not, ◌&&◌, ◌||◌, Option, none, some, List, Text, all, is_empty,
  if◌then◌else◌,
}
use rendermesh.Base.{
  ◌==◌, text, trim, to_ascii_lowercase, is_ascii_digit, is_ascii_alphanumeric, split, rsplit_once,
  starts_with, ends_with,
}

unfoldable pub is_valid_host_label : Text → Bool
unfolding is_ascii_alphanumeric starts_with ends_with
is_valid_host_label label =
    not (is_empty label)
    && not (starts_with label (text "-"))
    && not (ends_with label (text "-"))
    && all (λ ch. is_ascii_alphanumeric ch || ch == b'-') label

unfoldable pub is_valid_host : Text → Bool
unfolding is_valid_host_label split
is_valid_host host =
    not (is_empty host)
    && not (starts_with host (text "."))
    && not (ends_with host (text "."))
    && all is_valid_host_label (split b'.' host)

-- The `let host = if let Some(…) …` of `normalize_host`: the value without its port.
without_port : Text → Option Text
without_port value = elim (rsplit_once b':' value) [
  | some (host, port) ↦ if is_empty port || not (all is_ascii_digit port) then none else some host
  | none ↦ some value
]

checked_host : Option Text → Option Text
checked_host none = none
checked_host (some host) =
    let name = to_ascii_lowercase (trim host) in if is_valid_host name then some name else none

unfoldable pub normalize_host : Text → Option Text
unfolding without_port checked_host
normalize_host host_header =
    let value = trim host_header in
    if is_empty value then none else checked_host (without_port value)
