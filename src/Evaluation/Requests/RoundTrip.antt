-- ===== src/Evaluation/Requests/RoundTrip.antt =====
-- A request and a session are read back as they were written, the capabilities in the order of their values.
use llm_router.Routing.Policy.{SessionSnapshot}
use llm_router.Evaluation.Codec.{request_json, signals_json, session_json, outcome_text}
use llm_router.Evaluation.Requests.{
  decode_routing_request, request_keys, decode_signals, read, loaded, decode_session, to_outcome,
  SessionSnapshot,
}
use llm_router.Common.TextOrder.{str_leb}
use llm_router.Routing.Compile.{text_items, capability_items}
use llm_router.Evaluation.Requests.Ordered.{ordered_fields, insert_field, ordered_items, ordered}
use llm_router.Common.{
  List, ◌∷◌, map, ◌≡◌, String, if◌then◌else◌, some, ◌==◌, ◌∙◌, Option, [], ◌||◌, refl, ap, any,
  Bool-cases, inl, inr, arith,
}
use llm_router.Evaluation.Decoded.{
  as_text, as_boolean, as_items, check_keys, keys, member, as_count, dictionary, as_capabilities,
  decoded, as_member,
}
use llm_router.Common.Json.{get_field, Json, text, Fields, object}
use llm_router.Common.Sorted.{sorted_texts, insert_text}
use llm_router.Domain.{
  RoutingRequest, Capability, has_capability, streaming, capability_eq, Protocol, OutcomeSignal,
  Tier, fast, anthropic_messages, openai_responses,
}
use llm_router.Domain.Values.{
  to_capability, capability_text, to_protocol, to_tier, protocol_text, tier_text,
}

-- The capabilities in the order of their values.
insert_capability : Capability → List Capability → List Capability
insert_capability c [] = c ∷ []
insert_capability c (d ∷ ds) =
    if str_leb (capability_text c) (capability_text d)
    then c ∷ d ∷ ds
    else d ∷ insert_capability c ds

pub sorted_capabilities : List Capability → List Capability
sorted_capabilities [] = []
sorted_capabilities (c ∷ cs) = insert_capability c (sorted_capabilities cs)

insert_text-map :
    (c : Capability) (cs : List Capability)
    → insert_text (capability_text c) (map capability_text cs)
      ≡ map capability_text (insert_capability c cs)
unfolding insert_text insert_capability
insert_text-map c [] = refl
insert_text-map c (d ∷ ds) = elim (Bool-cases (str_leb (capability_text c) (capability_text d))) [
  | inl h ↦ rw h refl
  | inr h ↦ rw h (ap (λ (ts : List String). capability_text d ∷ ts) (insert_text-map c ds))
]

sorted_texts-map :
    (cs : List Capability)
    → sorted_texts (map capability_text cs) ≡ map capability_text (sorted_capabilities cs)
unfolding sorted_texts sorted_capabilities
sorted_texts-map [] = refl
sorted_texts-map (c ∷ cs) =
    ap (insert_text (capability_text c)) (sorted_texts-map cs)
    ∙ insert_text-map c (sorted_capabilities cs)

-- Each capability is read from its value.
to_capability_lem : (c : Capability) → to_capability (capability_text c) ≡ some c
unfolding to_capability capability_text
to_capability_lem streaming = refl
to_capability_lem _ = refl

as_capabilities_lem :
    (cs : List Capability) → as_capabilities (text_items (map capability_text cs)) ≡ decoded cs
unfolding as_capabilities text_items
as_capabilities_lem [] = refl
as_capabilities_lem (c ∷ cs) = rw (to_capability_lem c) (rw (as_capabilities_lem cs) refl)

ordered-text_items : (ss : List String) → ordered_items (text_items ss) ≡ text_items ss
unfolding ordered_items text_items
ordered-text_items [] = refl
ordered-text_items (s ∷ ss) = rw (ordered-text_items ss) refl

has_capability-insert :
    (c d : Capability) (cs : List Capability)
    → has_capability c (insert_capability d cs) ≡ (d == c) || has_capability c cs
unfolding has_capability insert_capability any
has_capability-insert c d [] = refl
has_capability-insert c d (e ∷ es) =
    elim (Bool-cases (str_leb (capability_text d) (capability_text e))) [
      | inl h ↦ rw h refl
      | inr h ↦ rw h (ground (arith, has_capability-insert c d es))
    ]

has_capability-sorted :
    (c : Capability) (cs : List Capability)
    → has_capability c (sorted_capabilities cs) ≡ has_capability c cs
unfolding has_capability sorted_capabilities
has_capability-sorted c [] = refl
has_capability-sorted c (d ∷ ds) =
    has_capability-insert c d (sorted_capabilities ds) ∙ rw (has_capability-sorted c ds) refl

to_protocol_lem : (p : Protocol) → as_member to_protocol (text (protocol_text p)) ≡ decoded p
unfolding as_member to_protocol protocol_text
to_protocol_lem anthropic_messages = refl
to_protocol_lem openai_responses = refl

to_outcome_lem : (o : OutcomeSignal) → as_member to_outcome (text (outcome_text o)) ≡ decoded o
unfolding as_member to_outcome outcome_text
to_outcome_lem OutcomeSignal.success = refl
to_outcome_lem _ = refl

to_tier_lem : (t : Tier) → as_member to_tier (text (tier_text t)) ≡ decoded t
unfolding as_member to_tier tier_text
to_tier_lem fast = refl
to_tier_lem _ = refl

-- What a decoder takes for the text of a value.
module _ (dumps : Json → String) (loads : String → Option Json) where
  loaded-dumps :
      (fields : Fields)
      → loads (dumps (object fields)) ≡ some (ordered (object fields))
      → loaded loads (dumps (object fields)) ≡ decoded (ordered_fields fields)
  unfolding dictionary ordered loaded
  loaded-dumps fields e = rw (e, loaded) refl

  decode-encode_session :
      (s : SessionSnapshot)
      → loads (dumps (session_json s)) ≡ some (ordered (session_json s))
      → decode_session loads (some (dumps (session_json s))) ≡ decoded (some s)
  unfolding decode_session session_json ordered_fields insert_field check_keys keys read member
      get_field as_count ordered
  decode-encode_session s e =
      rw (loaded-dumps _ e) (rw (to_tier_lem s.last_tier) (rw (to_outcome_lem s.last_outcome) refl))

  decode-encode_request :
      (r : RoutingRequest)
      → loads (dumps (request_json r)) ≡ some (ordered (request_json r))
      → decode_routing_request loads (dumps (request_json r))
        ≡ decoded (record r { required_capabilities = sorted_capabilities r.required_capabilities })
  unfolding decode_routing_request request_json request_keys signals_json decode_signals dictionary
      ordered_fields insert_field check_keys keys read member get_field as_count as_text as_boolean
      as_items capability_items ordered
  decode-encode_request r e = rw (loaded-dumps _ e) (
      rw (sorted_texts-map r.required_capabilities) (
        rw (ordered-text_items (map capability_text (sorted_capabilities r.required_capabilities)))
          (rw (as_capabilities_lem (sorted_capabilities r.required_capabilities))
            (rw (to_outcome_lem r.outcome_signal) (rw (to_protocol_lem r.protocol) refl)))))

  -- Where `loads` gives back what `dumps` wrote of a request and of a session, the keys of each object in order,
  -- the decoders read the session as it was, and the request as it was with its capabilities in the order of
  -- their values, among which each capability is found if and only if the request had it.
  pub decode-encode :
      (r : RoutingRequest) (s : SessionSnapshot) (c : Capability)
      → loads (dumps (request_json r)) ≡ some (ordered (request_json r))
      → loads (dumps (session_json s)) ≡ some (ordered (session_json s))
      → (decode_routing_request loads (dumps (request_json r))
          ≡ decoded
              (record r { required_capabilities = sorted_capabilities r.required_capabilities }))
        × (has_capability c (sorted_capabilities r.required_capabilities)
            ≡ has_capability c r.required_capabilities)
        × (decode_session loads (some (dumps (session_json s))) ≡ decoded (some s))
  decode-encode r s c e f = (
    decode-encode_request r e,
    has_capability-sorted c r.required_capabilities,
    decode-encode_session s f,
  )
