-- ===== src/Domain/Lifecycles/Guarantees.antt =====
-- What the table of requests guarantees of every history.
use fuse_agent_control_plane.Base.{
  is_blank, ℕ, ◌≤◌, ◌<◌, ℤ, Bool, true, false, Option, List, [], length, All, String, ok, err, ◌≡◌,
  refl, subst, arith, ◌⊎◌, inl, inr, Bool-cases,
}
use fuse_agent_control_plane.Domain.Lifecycles.{
  TransitionContext, Lifecycle, RequestState, received, admitted, reserved, provider_pending,
  response_held, payment_pending, released, completed, payment_rejected, response_expired,
  request_transitions, RequestState-discrete, create_request_lifecycle, entity_id_required,
}
use fuse_agent_control_plane.Domain.Lifecycles.Routes.{visits, chain_bounded, chain_gated}
use fuse_agent_control_plane.Domain.Lifecycles.History.{IsChain, run, history-IsChain}

request_rank : RequestState → ℕ
request_rank received = 7
request_rank admitted = 6
request_rank reserved = 5
request_rank provider_pending = 4
request_rank response_held = 3
request_rank payment_pending = 2
request_rank released = 1
request_rank _ = 0

request_rank_falls :
    (s : RequestState) → All (λ t. request_rank t < request_rank s) (request_transitions s)
unfolding request_rank request_transitions
request_rank_falls received = omega arith
request_rank_falls _ = omega arith

abbrev pub is_released : RequestState → Bool
is_released released = true
is_released completed = true
is_released _ = false

past_payment : RequestState → Bool
past_payment payment_pending = true
past_payment released = true
past_payment completed = true
past_payment payment_rejected = true
past_payment _ = false

past_response : RequestState → Bool
unfolding past_payment
past_response response_held = true
past_response response_expired = true
past_response s = past_payment s

payment_gate :
    (s : RequestState)
    → past_payment s ≡ false
    → All (λ t. (past_payment t ≡ false) ⊎ (t ≡ payment_pending)) (request_transitions s)
unfolding past_payment request_transitions
payment_gate received h = ground arith
payment_gate _ h = ground arith

response_gate :
    (s : RequestState)
    → past_response s ≡ false
    → All (λ t. (past_response t ≡ false) ⊎ (t ≡ response_held)) (request_transitions s)
unfolding past_response request_transitions
response_gate received h = ground arith
response_gate _ h = ground arith

released_past_payment : (s : RequestState) → is_released s ≡ true → past_payment s ≡ true
unfolding past_payment
released_past_payment s h = ground arith

released_past_response : (s : RequestState) → is_released s ≡ true → past_response s ≡ true
unfolding past_response
released_past_response s h = ground arith

module _ (date_parse : String → Option ℤ) where
  abbrev requested :
      Lifecycle RequestState → List (RequestState × TransitionContext) → Lifecycle RequestState
  requested = run RequestState-discrete date_parse

  abbrev request_start : String → Lifecycle RequestState
  request_start id = record {
    kind = "request";
    entity_id = id;
    current = received;
    transitions = request_transitions;
    events = [];
  }

  request-IsChain :
      (id : String) {l : Lifecycle RequestState} (tries : List (RequestState × TransitionContext))
      → create_request_lifecycle id ≡ ok l
      → IsChain RequestState-discrete date_parse request_transitions 0 received
          (requested l tries).events
          (requested l tries).current
  unfolding create_request_lifecycle
  request-IsChain id {l} tries e = elim (Bool-cases (is_blank id)) [
    | inl blank ↦ let clash : err entity_id_required ≡ ok l = rw blank at e in cc
    | inr named ↦
        let fresh : ok (request_start id) ≡ ok l = rw named at e in
        let same : request_start id ≡ l = cc in
        subst
          (λ x.
            IsChain RequestState-discrete date_parse request_transitions 0 received
              (requested x tries).events (requested x tries).current)
          same (history-IsChain RequestState-discrete date_parse (request_start id) tries refl)
  ]

  -- A request makes at most seven transitions, whatever is attempted.
  pub request_bounded :
      (id : String) {l : Lifecycle RequestState} (tries : List (RequestState × TransitionContext))
      → create_request_lifecycle id ≡ ok l
      → length (requested l tries).events ≤ 7
  unfolding request_rank
  request_bounded id {l} tries e = omega (
    arith,
    chain_bounded RequestState-discrete date_parse request_transitions request_rank
        request_rank_falls 0 received (requested l tries).current (requested l tries).events
        (request-IsChain id tries e),
  )

  -- A request that has been released or completed had its response held and its payment pending.
  pub release_needs_payment :
      (id : String) {l : Lifecycle RequestState} (tries : List (RequestState × TransitionContext))
      → create_request_lifecycle id ≡ ok l
      → is_released (requested l tries).current ≡ true
      → (visits RequestState-discrete date_parse response_held (requested l tries).events ≡ true)
        × (visits RequestState-discrete date_parse payment_pending (requested l tries).events
            ≡ true)
  unfolding past_response
  release_needs_payment id {l} tries e h =
      let chain = request-IsChain id tries e in
      let gate = λ (g : RequestState) (beyond : RequestState → Bool).
        chain_gated RequestState-discrete date_parse request_transitions g beyond in
      (
        gate response_held past_response response_gate 0 received (requested l tries).current
            (requested l tries).events chain refl (released_past_response _ h),
        gate payment_pending past_payment payment_gate 0 received (requested l tries).current
            (requested l tries).events chain refl (released_past_payment _ h),
      )
