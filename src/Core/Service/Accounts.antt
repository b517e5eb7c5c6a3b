-- ===== src/Core/Service/Accounts.antt =====
-- One completion of the service, from its reservation to its release, in the ledger's accounts.
use fuse_agent_control_plane.Base.{
  ℕ, ◌≤◌, ℤ, pos, ◌+ℤ◌, ◌-ℤ◌, Option, none, some, String, lookup, insert, lookup-insert_self,
  Result, ok, err, ok-injective, Outcome-cases, Bool-cases, ◌≡◌, refl, sym, ap, ◌∙◌, subst, inl,
  inr, int_laws,
}
use fuse_agent_control_plane.Core.Circuit.{is_tripped}
use fuse_agent_control_plane.Core.Ledger.{
  Account, available, FuseLedger, LedgerError, Reservation, reserve, reconcile, reclaim_available,
}
use fuse_agent_control_plane.Core.Ledger.Runs.{reserve-reconcile}
use fuse_agent_control_plane.Core.Pricing.{calculate_cost_micros}
use fuse_agent_control_plane.Core.Service.{
  CompletionRequest, ProviderResult, Pending, ReleasedCompletion, FuseService, ServiceError, Begun,
  dispatched, amount_to_reserve, after_reserve, begin_found, priced, begin_completion,
  circuit_answer, finish_evaluated, finish_costed, finish_completion,
}
use fuse_agent_control_plane.Core.Service.Release.{
  receipt_of, release_with, release_pending, release_paid_completion, released_of,
}

after_reserve-dispatched :
    (s : FuseService) (m : Result LedgerError (FuseLedger × Reservation)) {s' : FuseService}
    → after_reserve s m ≡ (s', ok dispatched)
    → (r : Reservation) × (m ≡ ok (s'.ledger, r))
after_reserve-dispatched s (ok (l, r)) e =
    (r, ap (λ (x : FuseService × Result ServiceError Begun). ok (x.0.ledger, r)) e)
after_reserve-dispatched s (err error) e =
    let told = ap (λ (x : FuseService × Result ServiceError Begun). x.1) e in cc

begin_found-dispatched :
    (s : FuseService) (request : CompletionRequest) (found : Option Pending) {maximum : ℕ}
    {s' : FuseService}
    → amount_to_reserve s request ≡ ok maximum
    → begin_found s request found ≡ (s', ok dispatched)
    → (r : Reservation) × (reserve s.ledger request.child_id (pos maximum) request.request_id
        ≡ ok (s'.ledger, r))
begin_found-dispatched s request (some cached) amount e =
    let told = ap (λ (x : FuseService × Result ServiceError Begun). x.1) e in
    let same = ok-injective told in cc
begin_found-dispatched s request none amount e = after_reserve-dispatched s _ (rw amount at e)

-- The completion waits for its payment.
abbrev IsWaiting : FuseService → CompletionRequest → ℕ → Type 0
IsWaiting s request cost =
    (p : Pending) × (lookup request.request_id s.pending ≡ some p)
    × (p.request ≡ request)
    × (p.exact_cost_micros ≡ cost)
    × (p.released ≡ none)

finish_costed-IsWaiting :
    (s : FuseService) (request : CompletionRequest) (result : ProviderResult)
    (priced_at : Result ServiceError ℕ) {cost : ℕ} {s' : FuseService}
    → finish_costed s request result priced_at ≡ (s', ok cost)
    → (s'.ledger ≡ s.ledger) × IsWaiting s' request cost
unfolding finish_evaluated
finish_costed-IsWaiting s request result (err error) e =
    let told = ap (λ (x : FuseService × Result ServiceError ℕ). x.1) e in cc
finish_costed-IsWaiting s request result (ok exact) {cost} {s'} e =
    elim (Outcome-cases (circuit_answer s request.child_id exact)) [
      | inr (error, f) ↦
          let refused = rw f at e in
          let told = ap (λ (x : FuseService × Result ServiceError ℕ). x.1) refused in cc
      | inl ((circuit, outcome), f) ↦
          let done = rw f at e in
          let same = ap (λ (x : FuseService × Result ServiceError ℕ). x.0) done in
          let paid = ok-injective (ap (λ (x : FuseService × Result ServiceError ℕ). x.1) done) in
          subst (λ (x : FuseService). (x.ledger ≡ s.ledger) × IsWaiting x request cost) same
            (refl, (_, lookup-insert_self request.request_id _ s.pending, refl, paid, refl))
    ]

-- A ledger with the root account of another, where the child has a total reserved and one settled.
abbrev HasAccounts : FuseLedger → Account → String → ℤ → ℤ → Type 0
HasAccounts l root child_id reserved_total settled_total =
    (l.root ≡ root)
    × (child : Account) × (lookup child_id l.children ≡ some child)
    × (child.reserved_micros ≡ reserved_total)
    × (child.settled_micros ≡ settled_total)

reclaim_available-accounts :
    (l : FuseLedger) (child_id : String) {child : Account}
    → lookup child_id l.children ≡ some child
    → (l' : FuseLedger) × (amount : ℤ) × (reclaim_available l child_id ≡ ok (l', amount))
      × HasAccounts l' l.root child_id child.reserved_micros child.settled_micros
unfolding reclaim_available
reclaim_available-accounts l child_id {child} found = (
  record l {
    children =
        insert child_id
          (record child { authorized_micros = child.authorized_micros -ℤ available child })
          l.children;
  },
  available child,
  rw found refl,
  (refl, _, lookup-insert_self child_id _ l.children, refl, refl),
)

release_pending-accounts :
    (s : FuseService) (id : String) (p : Pending) (hash : String) {l : FuseLedger} {r : Reservation}
    {child : Account}
    → reconcile s.ledger id (pos p.exact_cost_micros) ≡ ok (l, r)
    → lookup p.request.child_id l.children ≡ some child
    → (s' : FuseService) × (answer : ReleasedCompletion) × (release_pending s id p none hash
        ≡ (s', ok answer))
      × (answer.receipt.cost_micros ≡ p.exact_cost_micros)
      × HasAccounts s'.ledger l.root p.request.child_id child.reserved_micros child.settled_micros
unfolding release_pending release_with receipt_of
release_pending-accounts s id p hash {l} {r} {child} closed_now found =
    elim (Bool-cases (is_tripped p.circuit.state)) [
      | inr fine ↦ (
        (release_with s id p hash l (pos 0)).0,
        released_of s id p hash (pos 0),
        rw (closed_now, fine) refl,
        refl,
        (refl, child, found, refl, refl),
      )
      | inl shut ↦
          let (l', amount, reclaimed, accounts) =
            reclaim_available-accounts l p.request.child_id found in
          (
            (release_with s id p hash l' amount).0,
            released_of s id p hash amount,
            rw (closed_now, shut, reclaimed) refl,
            refl,
            accounts,
          )
    ]

-- A request under a new id that the service dispatches, and whose cost turns out to be no more than
-- the maximum that was reserved, is released when its payment is reported: its receipt names that
-- cost, and in the root account and in its child's the cost is settled and nothing of the request
-- stays reserved.
pub complete-release :
    (s : FuseService) (request : CompletionRequest) (result : ProviderResult) (hash : String)
    {maximum cost : ℕ} {begun finished : FuseService}
    → lookup request.request_id s.ledger.reservations ≡ none
    → amount_to_reserve s request ≡ ok maximum
    → begin_completion s request ≡ (begun, ok dispatched)
    → finish_completion begun request result ≡ (finished, ok cost)
    → cost ≤ maximum
    → (s' : FuseService) × (answer : ReleasedCompletion) × (child child' : Account)
      × (release_paid_completion finished request.request_id hash ≡ (s', ok answer))
      × (answer.receipt.cost_micros ≡ cost)
      × (s'.ledger.root.reserved_micros ≡ s.ledger.root.reserved_micros)
      × (s'.ledger.root.settled_micros ≡ s.ledger.root.settled_micros +ℤ pos cost)
      × (lookup request.child_id s.ledger.children ≡ some child)
      × (lookup request.child_id s'.ledger.children ≡ some child')
      × (child'.reserved_micros ≡ child.reserved_micros)
      × (child'.settled_micros ≡ child.settled_micros +ℤ pos cost)
unfolding begin_completion finish_completion release_paid_completion
complete-release s request result hash {maximum} {cost} {begun} {finished} fresh amount sent got
      fits =
    let (_, held_back) =
      begin_found-dispatched s request (lookup request.request_id s.pending) amount sent in
    let (kept_ledger, (p, waiting, asked, exact, unpaid)) =
      finish_costed-IsWaiting begun request result
        (priced (calculate_cost_micros result.usage begun.price)) got in
    let (l, r, closed_now, root_reserved, root_settled, _, child, child', known, found, _, a, b) =
      reserve-reconcile s.ledger request.child_id (pos maximum) (pos cost) request.request_id fresh
        held_back (omega int_laws) (omega (int_laws, fits)) in
    let paid : reconcile finished.ledger request.request_id (pos p.exact_cost_micros) ≡ ok (l, r) =
      ap (λ k. reconcile k request.request_id (pos p.exact_cost_micros)) kept_ledger
      ∙ ap (λ c. reconcile begun.ledger request.request_id (pos c)) exact
      ∙ closed_now in
    let (s', answer, done, receipt, (root, child'', last, c, d)) =
      release_pending-accounts finished request.request_id p hash paid
        (ap (λ (q : CompletionRequest). lookup q.child_id l.children) asked ∙ found) in
    (
      s',
      answer,
      child,
      child'',
      rw (waiting, unpaid) done,
      receipt ∙ exact,
      ap (λ (x : Account). x.reserved_micros) root ∙ root_reserved,
      ap (λ (x : Account). x.settled_micros) root ∙ root_settled,
      known,
      sym (ap (λ (q : CompletionRequest). lookup q.child_id s'.ledger.children) asked) ∙ last,
      c ∙ a,
      d ∙ b,
    )
