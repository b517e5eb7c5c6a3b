-- ===== src/Persistence/PolicyStore/Replays.antt =====
-- A request that is sent again to `admitInference` of src/persistence/policyStore.ts, and one that
-- is previewed first.
use fuse_agent_control_plane.Persistence.PolicyStore.{
  idempotency_conflict, ControlMandate, StoredPolicyDecision, Store, Platform,
}
use fuse_agent_control_plane.Persistence.PolicyStore.Tables.{
  is_execution, is_assigned, mandate_policy, in_policy,
}
use fuse_agent_control_plane.Persistence.PolicyStore.Admission.{
  AdmissionResult, to_execute, refused, in_progress, already_failed, already_completed,
  AdmissionInput, named, scope, workload_of, decision_input, evaluation_input, policy_of, allows,
  stored_decision, execution_row, record_admission, admit_new,
}
use fuse_agent_control_plane.Persistence.PolicyStore.Replay.{
  lease_expired, expire_if, expire_lease, admission_by_status, admission_from_execution,
  validate_admission, admit_found, admit, admit_inference, preview_inference,
}
use fuse_agent_control_plane.Persistence.PolicyStore.Admitted.{admit_new-owned, admit_found-cases}
use fuse_agent_control_plane.Persistence.PolicyStore.Spending.{admitted_store, recorded}
use fuse_agent_control_plane.Persistence.PolicyStore.Steps.{replay-passed}
use fuse_agent_control_plane.Persistence.PolicyStore.Admissions.{
  replay-not_to_execute, answered_to_execute,
}
use fuse_agent_control_plane.Base.{
  String, ◌≡◌, refl, sym, ap, subst, ◌∙◌, inl, inr, Bool, true, false, if◌then◌else◌, none, some,
  arith, ◌==◌, eq_refl, is_some, ℤ, find, Result, ok, err, ◌>>=◌, >>-eq-ok, >>=-eq-ok, ok-injective,
}
use fuse_agent_control_plane.Domain.Policy.{PolicyVersion, PolicyDecisionResult}
use fuse_agent_control_plane.Domain.Policy.Evaluate.{evaluate_policy}
use fuse_agent_control_plane.Signer.AuthorizationStore.{is_fingerprint}

mandate_policy-kept :
    (s after : Store) (org mandate : String)
    → after.mandates ≡ s.mandates
    → after.policies ≡ s.policies
    → mandate_policy after org mandate ≡ mandate_policy s org mandate
mandate_policy-kept s after org mandate mandates policies = rw (mandates, policies) refl

-- The call with another time and another fingerprint.
abbrev pub sent_again : AdmissionInput → String → String → AdmissionInput
sent_again input fingerprint at = record input {
  request_fingerprint = fingerprint;
  decided_at = at;
}

-- What an admission leaves behind.
admitted-left :
    (js : Platform) (s : Store) (input : AdmissionInput) (id : String) {after : Store}
    {d : StoredPolicyDecision} {reservation : ℤ}
    → admit_inference js s input id ≡ ok (after, to_execute d reservation)
    → (r : PolicyDecisionResult) × (stored : StoredPolicyDecision) × (joined : ControlMandate
        × PolicyVersion)
      × (allows r.outcome ≡ true)
      × (stored.organization_id ≡ input.organization_id)
      × (admitted_store s input r stored ≡ after)
      × (mandate_policy s input.organization_id input.mandate_id ≡ ok joined)
      × (validate_admission js input ≡ ok tt)
unfolding admit_inference admit
admitted-left js s input id {after} done =
    let (valid, rest) = >>-eq-ok (validate_admission js input) _ done in
    let (joined, known, last) =
      >>=-eq-ok (mandate_policy s input.organization_id input.mandate_id) _ rest in
    elim (admit_found-cases js false s joined.0 joined.1 input id _ last) [
      | inl (e, _, _, replayed) ↦
          let (stored, answered) = replay-passed js s e input.decided_at replayed in
          absurd (replay-not_to_execute e.status js s e stored input.decided_at answered)
      | inr (fresh, decided) ↦
          let (r, stored, owned, a, written) =
            admit_new-owned js false s joined.0 joined.1 input id decided in
          let (same, answer) = recorded s input r stored written in
          let (allowed_now, _) = answered_to_execute r stored answer in
          (r, stored, joined, allowed_now, owned, same, known, valid)
    ]

validate_again :
    (js : Platform) (input : AdmissionInput) (fingerprint at : String)
    → validate_admission js input ≡ ok tt
    → is_fingerprint fingerprint ≡ true
    → is_some (js.date_parse at) ≡ true
    → validate_admission js (sent_again input fingerprint at) ≡ ok tt
unfolding validate_admission
validate_again js input fingerprint at valid good dated = ground (arith)

found_again :
    (s : Store) (input : AdmissionInput) (r : PolicyDecisionResult) (d : StoredPolicyDecision)
    → find
        (is_execution input.organization_id input.request_id)
        (admitted_store s input r d).executions
      ≡ some (execution_row input r d.id)
unfolding execution_row
found_again s input r d = rw (eq_refl input.organization_id, eq_refl input.request_id) refl

-- A request that was admitted and is sent again, at a time that parses, with another well-formed
-- fingerprint is refused as a conflict.
pub admit_again-conflict :
    (js : Platform) (s : Store) (input : AdmissionInput) (id later_id fingerprint at : String)
    {after : Store} {d : StoredPolicyDecision} {reservation : ℤ}
    → admit_inference js s input id ≡ ok (after, to_execute d reservation)
    → is_fingerprint fingerprint ≡ true
    → (input.request_fingerprint == fingerprint) ≡ false
    → is_some (js.date_parse at) ≡ true
    → admit_inference js after (sent_again input fingerprint at) later_id ≡ err idempotency_conflict
unfolding admit_inference admit admit_found execution_row
admit_again-conflict js s input id later_id fingerprint at {after} done good other dated =
    let (r, stored, joined, _, _, same, known, valid) = admitted-left js s input id done in
    subst
      (λ x. admit js false x (sent_again input fingerprint at) later_id ≡ err idempotency_conflict)
      same
      (rw
        (
          validate_again js input fingerprint at valid good dated,
          mandate_policy-kept s (admitted_store s input r stored) input.organization_id
              input.mandate_id refl refl,
          known,
          found_again s input r stored,
          other,
        )
        refl)

valid-is_fingerprint :
    (js : Platform) (input : AdmissionInput)
    → validate_admission js input ≡ ok tt
    → is_fingerprint input.request_fingerprint ≡ true
unfolding validate_admission
valid-is_fingerprint js input valid = ground (arith)

-- The row that was just admitted is answered as being in progress.
replay_admitted :
    (js : Platform) (s : Store) (input : AdmissionInput) (r : PolicyDecisionResult)
    (d : StoredPolicyDecision) (at : String)
    → allows r.outcome ≡ true
    → d.organization_id ≡ input.organization_id
    → lease_expired (js.date_parse at) (js.date_parse input.decided_at) ≡ false
    → admission_from_execution js (admitted_store s input r d) (execution_row input r d.id) at
      ≡ ok (admitted_store s input r d, in_progress)
unfolding execution_row admission_from_execution admission_by_status expire_lease expire_if
replay_admitted js s input r d at allowed_now owned early =
    let named_now : (d.organization_id == input.organization_id) ≡ true =
      ap (λ o. o == input.organization_id) owned ∙ eq_refl input.organization_id in
    rw (named_now, eq_refl d.id, allowed_now, early) refl

-- A request that was admitted and is sent again, at a time that parses and is less than five minutes
-- later, with its fingerprint, is in progress, and nothing changes.
pub admit_again :
    (js : Platform) (s : Store) (input : AdmissionInput) (id later_id at : String) {after : Store}
    {d : StoredPolicyDecision} {reservation : ℤ}
    → admit_inference js s input id ≡ ok (after, to_execute d reservation)
    → is_some (js.date_parse at) ≡ true
    → lease_expired (js.date_parse at) (js.date_parse input.decided_at) ≡ false
    → admit_inference js after (sent_again input input.request_fingerprint at) later_id
      ≡ ok (after, in_progress)
unfolding admit_inference admit admit_found execution_row
admit_again js s input id later_id at {after} done dated early =
    let (r, stored, joined, allowed_now, owned, same, known, valid) =
      admitted-left js s input id done in
    let left = admitted_store s input r stored in
    let replayed = replay_admitted js s input r stored at allowed_now owned early in
    subst
      (λ x.
        admit js false x (sent_again input input.request_fingerprint at) later_id
        ≡ ok (x, in_progress))
      same
      (rw
        (
          validate_again js input input.request_fingerprint at valid
              (valid-is_fingerprint js input valid) dated,
          mandate_policy-kept s left input.organization_id input.mandate_id refl refl,
          known,
          found_again s input r stored,
          eq_refl input.request_fingerprint,
        )
        replayed)

both->>= :
    {E A B : Type 0} (m : Result E A) (k l : A → Result E B) {b c : B}
    → (m >>= k) ≡ ok b
    → (m >>= l) ≡ ok c
    → (a : A) × (k a ≡ ok b) × (l a ≡ ok c)
both->>= (ok a) k l e f = (a, e, f)
both->>= (err x) k l e f = cc

-- A decision, and an answer that carries one, under another id of the decision.
abbrev decided_as : String → StoredPolicyDecision → StoredPolicyDecision
decided_as id d = record d { id = id; input = record d.input { id = id } }

abbrev pub answered_under : String → AdmissionResult → AdmissionResult
answered_under id (to_execute d reservation) = to_execute (decided_as id d) reservation
answered_under id (refused d) = refused (decided_as id d)
answered_under id (already_completed d reservation actual response) =
    already_completed (decided_as id d) reservation actual response
answered_under id in_progress = in_progress
answered_under id already_failed = already_failed

answered_under-if :
    (admitted : Bool) (d later : StoredPolicyDecision) (id : String) (estimated : ℤ)
    → decided_as id d ≡ later
    → answered_under id (if admitted then to_execute d estimated else refused d)
      ≡ (if admitted then to_execute later estimated else refused later)
answered_under-if true d later id estimated renamed = ap (λ x. to_execute x estimated) renamed
answered_under-if false d later id estimated renamed = ap refused renamed

preview-record_admission :
    (s : Store) (input : AdmissionInput) (r : PolicyDecisionResult) (d later : StoredPolicyDecision)
    (id : String) {seen after : Store × AdmissionResult}
    → decided_as id d ≡ later
    → record_admission true s input r d ≡ ok seen
    → record_admission false s input r later ≡ ok after
    → (seen.0 ≡ s) × (answered_under id seen.1 ≡ after.1)
unfolding record_admission
preview-record_admission s input r d later id renamed previewed done =
    let (_, answer) = recorded s input r later done in
    let shown = ok-injective previewed in
    (
      sym (ap (λ (x : Store × AdmissionResult). x.0) shown),
      sym (ap (λ (x : Store × AdmissionResult). answered_under id x.1) shown)
          ∙ answered_under-if (allows r.outcome) d later id input.estimated_cost_atomic renamed
          ∙ answer,
    )

preview-admit_new :
    (js : Platform) (s : Store) (m : ControlMandate) (p : PolicyVersion) (input : AdmissionInput)
    (preview_id id : String) {seen after : Store × AdmissionResult}
    → admit_new js true s m p input preview_id ≡ ok seen
    → admit_new js false s m p input id ≡ ok after
    → (seen.0 ≡ s) × (answered_under id seen.1 ≡ after.1)
unfolding admit_new evaluation_input decision_input stored_decision
preview-admit_new js s m p input preview_id id previewed done =
    let (found, a, b) =
      both->>=
        (workload_of js s m input.agent_id
          (scope (named input.branch_id) (named input.workload_class)))
        _ _ previewed done in
    let d = decision_input js s m input id found.1 in
    let assigned = is_assigned s input.organization_id input.mandate_id input.agent_id in
    let (r, c, e) =
      both->>=
        (in_policy
          (evaluate_policy js.date_parse (policy_of js p) (evaluation_input js m assigned d)))
        _ _ a b in
    preview-record_admission s input r _ _ id refl c e

-- What a preview of a new request answers is what its admission then answers, but for the id of the
-- decision, which each call draws anew; and the preview changes nothing.
pub preview-admit_inference :
    (js : Platform) (s : Store) (input : AdmissionInput) (preview_id id : String)
    {seen after : Store} {foreseen answer : AdmissionResult}
    → find (is_execution input.organization_id input.request_id) s.executions ≡ none
    → preview_inference js s input preview_id ≡ ok (seen, foreseen)
    → admit_inference js s input id ≡ ok (after, answer)
    → (seen ≡ s) × (answered_under id foreseen ≡ answer)
unfolding preview_inference admit_inference admit admit_found
preview-admit_inference js s input preview_id id fresh previewed done =
    let (_, a, b) = both->>= (validate_admission js input) _ _ previewed done in
    let (joined, c, e) =
      both->>= (mandate_policy s input.organization_id input.mandate_id) _ _ a b in
    preview-admit_new js s joined.0 joined.1 input preview_id id (rw fresh at c) (rw fresh at e)
