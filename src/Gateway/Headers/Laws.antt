-- ===== src/Gateway/Headers/Laws.antt =====
-- The headers of responses, src/services/render_gateway.rs: safe names, and which value of
-- `access-control-allow-origin` the headers that are applied last leave.
use rendermesh.Base.{
  ◌≡◌, ◌⊎◌, inl, inr, refl, true, false, Option, none, some, [], ◌∷◌, arith, Text, text, TextMap,
  get, insert, get-insert, All, All-map, All-insert, All-insert_other, ◌===◌, to_ascii_lowercase,
  Bool-cases, text_dec,
}
use rendermesh.Hosts.Names.Laws.{to_ascii_lowercase_idem}
use rendermesh.Mirror.{ObjectMetadata}
use rendermesh.Gateway.Headers.{
  insert_header, insert_if_present, apply_headers, is_unsafe_edge_header, collect_filtered,
  filtered_headers, headers_from_metadata, allow_headers, headers_if_allowed,
  combined_response_headers,
}

abbrev pub allow_origin : Text
allow_origin = text "access-control-allow-origin"

-- The entry's name is none that the gateway keeps to itself.
unfoldable pub Safe : Text × Text → Type 0
Safe (name, value) = is_unsafe_edge_header name ≡ false

-- The entry's name is in lower case.
unfoldable pub Lower : Text × Text → Type 0
Lower (name, value) = to_ascii_lowercase name ≡ name

-- The headers allow the origin, if there is one to allow.
unfoldable pub Allows : Option Text → TextMap Text → Type 0
Allows none headers = Unit
Allows (some origin) headers = get allow_origin headers ≡ some origin

pub record IsGood (origin : Option Text) (headers : TextMap Text) : Type 0 where
  pub safe : All Safe headers
  pub allows : Allows origin headers

-- Headers that make every response good that they are applied to last.
unfoldable pub Settles : Option Text → TextMap Text → Type 0
Settles origin headers =
    (target : TextMap Text) → All Safe target → IsGood origin (apply_headers target headers)

lower-Safe : (name value : Text) → Safe (name, value) → Safe (to_ascii_lowercase name, value)
unfolding Safe is_unsafe_edge_header
lower-Safe name value h = rw (to_ascii_lowercase_idem name) h

pub insert_header-Safe :
    (headers : TextMap Text) (name value : Text)
    → Safe (name, value)
    → All Safe headers
    → All Safe (insert_header headers name value)
unfolding insert_header
insert_header-Safe headers name value s h =
    All-insert Safe (to_ascii_lowercase name) value headers (lower-Safe name value s) h

pub insert_if_present-Safe :
    (headers : TextMap Text) (name : Text) (value : Option Text)
    → ((v : Text) → Safe (name, v))
    → All Safe headers
    → All Safe (insert_if_present headers name value)
insert_if_present-Safe headers name none s h = h
insert_if_present-Safe headers name (some v) s h = insert_header-Safe headers name v (s v) h

pub apply_headers-Safe :
    (target headers : TextMap Text)
    → All Safe target
    → All Safe headers
    → All Safe (apply_headers target headers)
unfolding apply_headers
apply_headers-Safe target [] t h = t
apply_headers-Safe target ((name, value) ∷ headers) t (s, h) =
    apply_headers-Safe (insert_header target name value) headers
      (insert_header-Safe target name value s t) h

pub headers_from_metadata-Safe :
    (metadata : ObjectMetadata) → All Safe (headers_from_metadata metadata)
unfolding headers_from_metadata Safe is_unsafe_edge_header to_ascii_lowercase text_dec
headers_from_metadata-Safe metadata =
    insert_if_present-Safe _ (text "last-modified") metadata.last_modified (λ v. refl)
      (insert_if_present-Safe _ (text "etag") metadata.etag (λ v. refl)
        (insert_if_present-Safe _ (text "cache-control") metadata.cache_control (λ v. refl)
          (insert_if_present-Safe _ (text "content-type") metadata.content_type (λ v. refl) tt)))

-- An entry that the filter lets through.
unfoldable pub Filtered : Text × Text → Type 0
Filtered entry = Safe entry × Lower entry

collect_filtered-Filtered :
    (collected headers : TextMap Text)
    → All Filtered collected
    → All Filtered (collect_filtered collected headers)
unfolding collect_filtered Filtered Safe Lower
collect_filtered-Filtered collected [] h = h
collect_filtered-Filtered collected ((name, value) ∷ headers) h =
    elim (Bool-cases (is_unsafe_edge_header name)) [
      | inl e ↦ rw e (collect_filtered-Filtered collected headers h)
      | inr e ↦ rw e (
          collect_filtered-Filtered (insert (to_ascii_lowercase name) value collected) headers (
            All-insert Filtered (to_ascii_lowercase name) value collected
              (lower-Safe name value e, to_ascii_lowercase_idem name) h))
    ]

pub filtered_headers-Filtered : (headers : TextMap Text) → All Filtered (filtered_headers headers)
unfolding filtered_headers
filtered_headers-Filtered headers = collect_filtered-Filtered [] headers tt

pub Filtered-Safe : (headers : TextMap Text) → All Filtered headers → All Safe headers
unfolding Filtered
Filtered-Safe headers h = All-map Filtered Safe headers (λ e f. f.0) h

-- An entry for `access-control-allow-origin`, however it is spelled, has this value.
unfoldable Only : Text → Text × Text → Type 0
Only origin (name, value) = to_ascii_lowercase name ≡ allow_origin → value ≡ origin

lower_allow_origin : to_ascii_lowercase allow_origin ≡ allow_origin
unfolding to_ascii_lowercase
lower_allow_origin = refl

step :
    (origin name value : Text) (target headers : TextMap Text)
    → Only origin (name, value)
    → (get allow_origin target ≡ some origin)
      ⊎ (get allow_origin ((name, value) ∷ headers) ≡ some origin)
    → (get allow_origin (insert_header target name value) ≡ some origin)
      ⊎ (get allow_origin headers ≡ some origin)
unfolding insert_header Only get
step origin name value target headers o (inl h) =
    inl (ground (arith, get-insert allow_origin (to_ascii_lowercase name) value target, o))
step origin name value target headers o (inr h) =
    ground
      (arith, get-insert allow_origin (to_ascii_lowercase name) value target, o, lower_allow_origin)

apply_headers-origin :
    (origin : Text) (target headers : TextMap Text)
    → All (Only origin) headers
    → (get allow_origin target ≡ some origin) ⊎ (get allow_origin headers ≡ some origin)
    → get allow_origin (apply_headers target headers) ≡ some origin
unfolding apply_headers get
apply_headers-origin origin target [] only (inl h) = h
apply_headers-origin origin target [] only (inr h) = absurd (ground arith)
apply_headers-origin origin target ((name, value) ∷ headers) (o, only) h =
    apply_headers-origin origin (insert_header target name value) headers only
      (step origin name value target headers o h)

allowed-Safe : (origin : Option Text) → All Safe (headers_if_allowed origin)
unfolding Safe is_unsafe_edge_header to_ascii_lowercase text_dec
allowed-Safe none = tt
allowed-Safe (some origin) = (refl, (refl, tt))

vary-Only : (origin : Text) → Only origin (text "vary", text "Origin")
unfolding Only to_ascii_lowercase
vary-Only origin e = absurd (ground arith)

-- The headers for an allowed origin settle it, where they are the last to be applied.
pub Settles-allowed : (origin : Option Text) → Settles origin (headers_if_allowed origin)
unfolding Settles Allows apply_headers Only get text_dec
Settles-allowed none target t = record { safe = t; allows = tt }
Settles-allowed (some origin) target t = record {
  safe = apply_headers-Safe target (allow_headers origin) t (allowed-Safe (some origin));
  allows =
      apply_headers-origin origin target (allow_headers origin) (λ e. refl, (vary-Only origin, tt))
        (inr refl);
}

Filtered-Only :
    (origin : Text) (entry : Text × Text)
    → Filtered entry
    → ((allow_origin === entry.0) ≡ true) ⊎ Only origin entry
unfolding Filtered Lower Only
Filtered-Only origin (name, value) (s, l) = elim (Bool-cases (allow_origin === name)) [
  | inl e ↦ inl e
  | inr e ↦ inr (λ h. absurd (ground arith))
]

combined-Only :
    (origin : Text) (edge : TextMap Text)
    → All Filtered edge
    → All (Only origin) (combined_response_headers edge (allow_headers origin))
unfolding combined_response_headers apply_headers insert_header to_ascii_lowercase Only
combined-Only origin edge h =
    All-insert (Only origin) (text "vary") (text "Origin") (insert allow_origin origin edge)
      (vary-Only origin)
      (All-insert_other (Only origin) allow_origin origin edge (λ e. refl)
        (All-map Filtered (λ e. ((allow_origin === e.0) ≡ true) ⊎ Only origin e) edge
          (Filtered-Only origin) h))

-- So do the headers of the edge hooks together with them.
pub Settles-combined :
    (origin : Option Text) (edge : TextMap Text)
    → All Filtered edge
    → Settles origin (combined_response_headers edge (headers_if_allowed origin))
unfolding Settles Allows apply_headers combined_response_headers get text_dec Only
Settles-combined none edge h target t = record {
  safe = apply_headers-Safe target edge t (Filtered-Safe edge h);
  allows = tt;
}
Settles-combined (some origin) edge h target t =
    let combined = combined_response_headers edge (allow_headers origin) in
    record {
      safe = apply_headers-Safe target combined t (
          apply_headers-Safe edge (allow_headers origin) (Filtered-Safe edge h)
            (allowed-Safe (some origin)));
      allows = apply_headers-origin origin target combined (combined-Only origin edge h) (
          inr (
            apply_headers-origin origin edge (allow_headers origin)
              (λ e. refl, (vary-Only origin, tt)) (inr refl)));
    }
