-- ===== src/Edge/Hooks/Laws.antt =====
-- Payloads of edge hooks, src/services/edge_hooks.rs: refusals change nothing, served paths are
-- safe, and headers accumulate.
use rendermesh.Base.{
  ℕ, ◌≡◌, ◌⊎◌, refl, subst, inl, inr, true, false, Option, none, some, arith, Text, text, TextMap,
  get, get-extend, extend, NodupKeys, any, is_control, starts_with, contains, ok, err, Result-cases,
}
use rendermesh.Edge.{EdgeHookPayload}
use rendermesh.Edge.Hooks.{
  EdgeChainState, EdgePayloadOutcome, continue, respond_direct, serve_file, render_target,
  EdgeHookError, invalid_file_path, validate_edge_file_path, outcome_of, apply_edge_payload,
}

-- A path from the root, printable, without two dots in a row.
pub record IsServable (path : Text) : Type 0 where
  pub rooted : starts_with path (text "/") ≡ true
  pub printable : any is_control path ≡ false
  pub descends : contains path (text "..") ≡ false

file_path_cases :
    (path : Text)
    → ((validate_edge_file_path path ≡ ok tt) × IsServable path)
      ⊎ ((validate_edge_file_path path ≡ err (invalid_file_path path)) × ¬ IsServable path)
unfolding validate_edge_file_path
file_path_cases path = elim (Result-cases (validate_edge_file_path path)) [
  | inl (a, e) ↦
      inl (e, record { rooted = ground arith; printable = ground arith; descends = ground arith })
  | inr (error, e) ↦
      inr (ground arith, λ s. absurd (ground (arith, s.rooted, s.printable, s.descends)))
]

module _ {Value : Type 0} where
  outcome_of-eq-err :
      (status : ℕ) (body file_path : Option Text) (params : Option Value) (error : EdgeHookError)
      → outcome_of status body file_path params ≡ err error
      → (path : Text) × (body ≡ none)
        × (file_path ≡ some path)
        × (error ≡ invalid_file_path path)
        × ¬ IsServable path
  unfolding outcome_of
  outcome_of-eq-err status (some body) file_path params error h = cc
  outcome_of-eq-err status none (some path) params error h = elim (file_path_cases path) [
    | inl (e, safe) ↦ absurd (ground arith)
    | inr (e, bad) ↦ (path, refl, refl, ground arith, bad)
  ]
  outcome_of-eq-err status none none (some params) error h = cc
  outcome_of-eq-err status none none none error h = cc

  -- What an accepted payload must have decided: a body is answered at once with the hook's status;
  -- else a safe file path is served, with the parameters if there are any; else the parameters
  -- render the requested target; else the chain goes on.
  abbrev pub Decides : ℕ → EdgeHookPayload Value → EdgePayloadOutcome Value → Type 0
  Decides status p continue = (p.body ≡ none) × (p.file_path ≡ none) × (p.params ≡ none)
  Decides status p (respond_direct code body) = (p.body ≡ some body) × (code ≡ status)
  Decides status p (serve_file code path params) =
      (p.body ≡ none)
      × (p.file_path ≡ some path)
      × (p.params ≡ params)
      × (code ≡ status)
      × IsServable path
  Decides status p (render_target code params) =
      (p.body ≡ none) × (p.file_path ≡ none) × (p.params ≡ some params) × (code ≡ status)

  abbrev payload_of :
      TextMap Text → Option Text → Option Text → Option Value → EdgeHookPayload Value
  payload_of headers body file_path params = record {
    headers = headers;
    body = body;
    file_path = file_path;
    params = params;
  }

  outcome_of-Decides :
      (status : ℕ) (headers : TextMap Text) (body file_path : Option Text) (params : Option Value)
      (outcome : EdgePayloadOutcome Value)
      → outcome_of status body file_path params ≡ ok outcome
      → Decides status (payload_of headers body file_path params) outcome
  unfolding outcome_of
  outcome_of-Decides status headers (some body) file_path params outcome h =
      subst (Decides status (payload_of headers (some body) file_path params))
        {x = respond_direct status body} (ground arith) (refl, refl)
  outcome_of-Decides status headers none (some path) params outcome h =
      elim (file_path_cases path) [
        | inl (e, safe) ↦
            subst (Decides status (payload_of headers none (some path) params))
              {x = serve_file status path params} (ground arith) (refl, refl, refl, refl, safe)
        | inr (e, _) ↦ absurd (ground arith)
      ]
  outcome_of-Decides status headers none none (some params) outcome h =
      subst (Decides status (payload_of headers none none (some params)))
        {x = render_target status params} (ground arith) (refl, refl, refl, refl)
  outcome_of-Decides status headers none none none outcome h =
      subst (Decides status (payload_of headers none none none)) {x = continue} (ground arith)
        (refl, refl, refl)

  -- The headers of the chain after a payload: the payload's win, and the others stay.
  abbrev pub Accumulates : EdgeChainState → EdgeHookPayload Value → EdgeChainState → Type 0
  Accumulates before p after =
      (k : Text)
      → get k after.headers
        ≡ (elim (get k p.headers) [ some v ↦ some v | none ↦ get k before.headers ])

  -- A payload without repeated header names is either refused, which it is only for an unsafe file path without a body, and then
  -- the accumulated headers stay as they were; or it decides the outcome by the precedence body,
  -- file path, parameters, and its headers are added to the accumulated ones.
  pub apply_edge_payload_cases :
      (state : EdgeChainState) (status : ℕ) (p : EdgeHookPayload Value)
      → NodupKeys p.headers
      → ((path : Text) × (p.body ≡ none)
          × (p.file_path ≡ some path)
          × ¬ IsServable path
          × (apply_edge_payload state status p ≡ (state, err (invalid_file_path path))))
        ⊎ ((outcome : EdgePayloadOutcome Value) × (after : EdgeChainState) × (apply_edge_payload
                state status p
              ≡ (after, ok outcome))
            × Decides status p outcome
            × Accumulates state p after)
  unfolding apply_edge_payload
  apply_edge_payload_cases state status p unique =
      elim (Result-cases (outcome_of status p.body p.file_path p.params)) [
        | inr (error, e) ↦
            let (path, no_body, given, why, bad) =
              outcome_of-eq-err status p.body p.file_path p.params error e in
            inl (path, no_body, given, bad, rw (e, apply_edge_payload) (rw why))
        | inl (outcome, e) ↦ inr (
          outcome,
          record state { headers = extend state.headers p.headers },
          rw (e, apply_edge_payload),
          outcome_of-Decides status p.headers p.body p.file_path p.params outcome e,
          λ k. get-extend k state.headers p.headers unique,
        )
      ]
