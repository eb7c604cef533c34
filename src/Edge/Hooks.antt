-- ===== src/Edge/Hooks.antt =====
-- What an edge hook's payload makes of a request, src/services/edge_hooks.rs.
pub mod Laws
use rendermesh.Base.{
  ℕ, Bool, true, false, not, ◌&&◌, ◌||◌, Option, none, some, List, [], ◌∷◌, Text, text, TextMap,
  any, if◌then◌else◌, ◌===◌, is_control, starts_with, ends_with, contains, split, trim,
  to_ascii_lowercase, extend, Result, ok, err, ◌>>=◌, ◌>>◌,
}
use rendermesh.Edge.{EdgeHookPayload}

pub record EdgeChainState : Type 0 where
  pub headers : TextMap Text

pub data EdgePayloadOutcome (Value : Type 0) : Type 0 where
  continue : EdgePayloadOutcome Value
  respond_direct : ℕ → Text → EdgePayloadOutcome Value
  serve_file : ℕ → Text → Option Value → EdgePayloadOutcome Value
  render_target : ℕ → Value → EdgePayloadOutcome Value

pub data EdgeHookError : Type 0 where
  invalid_file_path : Text → EdgeHookError

unfoldable pub validate_edge_file_path : Text → Result EdgeHookError (Unit {0})
validate_edge_file_path path =
    if not (starts_with path (text "/")) || any is_control path || contains path (text "..")
    then err (invalid_file_path path)
    else ok tt

module _ {Value : Type 0} where
  -- The `let outcome = …` of `apply_edge_payload`.
  outcome_of :
      ℕ → Option Text → Option Text → Option Value → Result EdgeHookError (EdgePayloadOutcome Value)
  outcome_of status (some body) file_path params = ok (respond_direct status body)
  outcome_of status none (some file_path) params =
      validate_edge_file_path file_path >>= λ _. ok (serve_file status file_path params)
  outcome_of status none none (some params) = ok (render_target status params)
  outcome_of status none none none = ok continue

  -- The state after the call, and its result.
  unfoldable pub apply_edge_payload :
      EdgeChainState
      → ℕ
      → EdgeHookPayload Value
      → EdgeChainState × Result EdgeHookError (EdgePayloadOutcome Value)
  unfolding outcome_of
  apply_edge_payload state status payload =
      elim (outcome_of status payload.body payload.file_path payload.params) [
        | err e ↦ (state, err e)
        | ok outcome ↦ (record state { headers = extend state.headers payload.headers }, ok outcome)
      ]

-- `content_type.split(';').next().unwrap_or_default()`
abbrev first_part : List Text → Text
first_part [] = []
first_part (part ∷ parts) = part

unfoldable pub is_html : Text → Option Text → Bool
is_html path (some content_type) =
    to_ascii_lowercase (trim (first_part (split b';' content_type))) === text "text/html"
is_html path none =
    let lowered = to_ascii_lowercase path in
    ends_with lowered (text ".html") || ends_with lowered (text ".htm")
