-- ===== src/Edge.antt =====
-- The configuration of an origin's edge behaviour and what is exchanged with edge hooks,
-- src/dto/edge.rs, with `default_edge_config` of src/services/edge_config.rs.
-- `Value` stands for `serde_json::Value`, which is only passed through.
pub mod Config
pub mod Hooks
pub mod Rules
use rendermesh.Base.{ℕ, Bool, true, Option, none, some, List, [], Text, text, TextMap}

pub record EdgeDefaults : Type 0 where
  pub root_object : Text
  pub auto_rewrite_index : Bool

pub data MissingAction : Type 0 where
  not_found serve redirect : MissingAction

pub record MissingConfig : Type 0 where
  pub action : MissingAction
  pub page : Option Text
  pub path : Option Text
  pub to : Option Text
  pub status : Option ℕ

pub record RedirectRule : Type 0 where
  pub from : Text
  pub to : Text
  pub status : ℕ

pub record RewriteRule : Type 0 where
  pub from : Text
  pub to : Text

pub record EdgeHookConfig : Type 0 where
  pub name : Text
  pub url : Text
  pub timeout_ms : ℕ

pub record EdgeConfig : Type 0 where
  pub version : ℕ
  pub edge : EdgeDefaults
  pub missing : MissingConfig
  pub redirects : List RedirectRule
  pub rewrites : List RewriteRule
  pub edges : List EdgeHookConfig

pub record EdgeHookContext (Value : Type 0) : Type 0 where
  pub bucket : Text
  pub ip : Option Text
  pub origin : Text
  pub edge_context : Option Value

pub record EdgeHookHttpRequest : Type 0 where
  pub url : Text
  pub path : Text
  pub querystring : Text
  pub queryparams : TextMap Text
  pub method : Text
  pub headers : TextMap Text
  pub body : Text

pub record EdgeHookRequest (Value : Type 0) : Type 0 where
  pub context : EdgeHookContext Value
  pub request : EdgeHookHttpRequest

pub record EdgeHookPayload (Value : Type 0) : Type 0 where
  pub headers : TextMap Text
  pub body : Option Text
  pub file_path : Option Text
  pub params : Option Value

-- `default_edge_config`
unfoldable pub default_edge_config : EdgeConfig
default_edge_config = record {
  version = 1;
  edge = record { root_object = text "/index.html"; auto_rewrite_index = true };
  missing = record {
    action = not_found;
    page = some (text "/index.html");
    path = none;
    to = none;
    status = none;
  };
  redirects = [];
  rewrites = [];
  edges = [];
}
