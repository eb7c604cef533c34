-- ===== src/Cdn/Cloudflare/Histories.antt =====
-- How the history of requests grows, src/repositories/cloudflare_cdn.rs.
use rendermesh.Base.{
  ◌≡◌, sym, ap, subst, ◌∙◌, ℕ, suc, Bool, true, false, ◌&&◌, Option, none, some, [], ◌∷◌, ◌++◌, Any,
  Any-append, append_assoc, if◌then◌else◌,
}
use rendermesh.Cdn.Cloudflare.{
  HttpMethod, http_get, http_post, http_put, http_delete, HttpRequest, HttpReply, Exchange, History,
  is_success,
}

abbrev pub same_method : HttpMethod → HttpMethod → Bool
same_method http_get http_get = true
same_method http_post http_post = true
same_method http_put http_put = true
same_method http_delete http_delete = true
same_method _ _ = false

abbrev pub is_accepted : Option HttpReply → Bool
is_accepted none = false
is_accepted (some reply) = is_success reply.status

-- How many requests with the method were answered with a status of success.
unfoldable pub succeeded : HttpMethod → History → ℕ
succeeded method [] = 0
succeeded method ((sent, reply) ∷ history) =
    let rest = succeeded method history in
    if is_accepted reply && same_method method sent.method then suc rest else rest

-- The request was made and answered with a status of success.
abbrev pub Succeeds : HttpRequest → Exchange → Type 0
Succeeds request (sent, none) = ⊥
Succeeds request (sent, some reply) = (sent ≡ request) × (is_success reply.status ≡ true)

abbrev pub Done : HttpRequest → History → Type 0
Done request history = Any (Succeeds request) history

-- The second history goes on from the first.
abbrev pub Extends : History → History → Type 0
Extends before after = (calls : History) × (after ≡ calls ++ before)

pub Extends-trans : {a b c : History} → Extends a b → Extends b c → Extends a c
Extends-trans {a} (xs, e) (ys, f) = (ys ++ xs, f ∙ ap (λ r. ys ++ r) e ∙ sym (append_assoc ys xs a))

pub Done-Extends :
    {a b : History} (request : HttpRequest) → Extends a b → Done request a → Done request b
Done-Extends {a} request (xs, e) h =
    subst (Done request) (sym e) (Any-append (Succeeds request) xs a h)
