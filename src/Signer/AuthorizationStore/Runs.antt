-- ===== src/Signer/AuthorizationStore/Runs.antt =====
-- What holds of the signer's store whatever is called on it.
use fuse_agent_control_plane.Base.{
  ℤ, ◌≤ℤ◌, Option, List, [], ◌∷◌, String, lookup, Result, ok, err, >>-eq-ok, or_keep, ◌≡◌, refl,
  int_laws,
}
use fuse_agent_control_plane.Signer.AuthorizationStore.{
  Store, SignerReservation, ReservationInput, SignerError,
}
use fuse_agent_control_plane.Signer.AuthorizationStore.Operations.{
  reserve, complete, hold_for_review,
}
use fuse_agent_control_plane.Signer.AuthorizationStore.Totals.{
  Inv, amounts_of, reserved_of, maximum_of, reserve-Inv, update_open-Inv,
}

pub data Call : Type 0 where
  reserves : ReservationInput → Call
  completes : String → String → String → String → Call
  holds : String → String → String → String → Call

abbrev pub empty_store : Store
empty_store = record { limits = []; authorizations = [] }

-- A call that throws leaves the store as it was.
abbrev kept_store : Store → Result SignerError (Store × SignerReservation) → Store
kept_store s (ok (s', answer)) = s'
kept_store s (err e) = s

module _ (date_parse : String → Option ℤ) where
  abbrev pub step : Store → Call → Store
  step s (reserves input) = kept_store s (reserve date_parse s input)
  step s (completes o id signature at) = or_keep s (complete date_parse s o id signature at)
  step s (holds o id reason at) = or_keep s (hold_for_review date_parse s o id reason at)

  unfoldable pub run : Store → List Call → Store
  run s [] = s
  run s (c ∷ cs) = run (step s c) cs

  complete-Inv :
      (s : Store) (o id signature at : String) {s' : Store}
      → Inv s
      → complete date_parse s o id signature at ≡ ok s'
      → Inv s'
  unfolding complete
  complete-Inv s o id signature at v e =
      let (_, rest) = >>-eq-ok _ _ e in update_open-Inv o id _ s (λ row. (refl, refl)) v rest

  hold_for_review-Inv :
      (s : Store) (o id reason at : String) {s' : Store}
      → Inv s
      → hold_for_review date_parse s o id reason at ≡ ok s'
      → Inv s'
  unfolding hold_for_review
  hold_for_review-Inv s o id reason at v e =
      let (_, rest) = >>-eq-ok _ _ e in update_open-Inv o id _ s (λ row. (refl, refl)) v rest

  kept_store-Inv :
      (s : Store) (m : Result SignerError (Store × SignerReservation))
      → Inv s
      → ((s' : Store) (answer : SignerReservation) → m ≡ ok (s', answer) → Inv s')
      → Inv (kept_store s m)
  kept_store-Inv s (ok (s', answer)) v h = h s' answer refl
  kept_store-Inv s (err e) v h = v

  or_keep-Inv :
      (s : Store) (m : Result SignerError Store)
      → Inv s
      → ((s' : Store) → m ≡ ok s' → Inv s')
      → Inv (or_keep s m)
  or_keep-Inv s (ok s') v h = h s' refl
  or_keep-Inv s (err e) v h = v

  step-Inv : (s : Store) (c : Call) → Inv s → Inv (step s c)
  step-Inv s (reserves input) v =
      kept_store-Inv s (reserve date_parse s input) v
        (λ s' answer e. reserve-Inv date_parse s input v e)
  step-Inv s (completes o id signature at) v =
      or_keep-Inv s (complete date_parse s o id signature at) v
        (λ s' e. complete-Inv s o id signature at v e)
  step-Inv s (holds o id reason at) v =
      or_keep-Inv s (hold_for_review date_parse s o id reason at) v
        (λ s' e. hold_for_review-Inv s o id reason at v e)

  run-Inv : (s : Store) (cs : List Call) → Inv s → Inv (run s cs)
  unfolding run
  run-Inv s [] v = v
  run-Inv s (c ∷ cs) v = run-Inv (step s c) cs (step-Inv s c v)

  empty_store-Inv : Inv empty_store
  unfolding lookup
  empty_store-Inv = record { totals = λ o. refl; capped = λ o. omega int_laws }

  -- Whatever is called on an empty store, an organization's reserved total is the sum of the
  -- amounts of all its rows, open, completed or under review, and is within its maximum.
  pub authority_bounded :
      (cs : List Call) (organization_id : String)
      → let s = run empty_store cs in
        let limit = lookup organization_id s.limits in
        (amounts_of organization_id s.authorizations ≡ reserved_of limit)
        × (reserved_of limit ≤ℤ maximum_of limit)
  authority_bounded cs organization_id =
      let v = run-Inv empty_store cs empty_store-Inv in
      (v.totals organization_id, v.capped organization_id)
