-- ===== src/Core/Service/Replays.antt =====
-- A payment that is reported twice.
use fuse_agent_control_plane.Base.{
  ℤ, pos, Option, none, some, String, lookup, lookup-insert_self, Result, ok, err, Outcome-cases,
  Bool-cases, ◌≡◌, refl, subst, inl, inr,
}
use fuse_agent_control_plane.Core.Circuit.{is_tripped}
use fuse_agent_control_plane.Core.Ledger.{FuseLedger, reconcile, reclaim_available}
use fuse_agent_control_plane.Core.Service.{Pending, ReleasedCompletion, FuseService, ServiceError}
use fuse_agent_control_plane.Core.Service.Release.{
  release_with, release_pending, release_found, release_paid_completion, released_of,
}

-- The service keeps a completion that it has released.
Keeps : FuseService → String → ReleasedCompletion → Type 0
Keeps s id r = (p : Pending) × (lookup id s.pending ≡ some p) × (p.released ≡ some r)

release_with-Keeps :
    (s : FuseService) (id : String) (p : Pending) (hash : String) (l : FuseLedger) (amount : ℤ)
    → Keeps (release_with s id p hash l amount).0 id (released_of s id p hash amount)
unfolding Keeps release_with
release_with-Keeps s id p hash l amount = (_, lookup-insert_self id _ s.pending, refl)

Keeps-again :
    (s : FuseService) (id hash : String) (r : ReleasedCompletion)
    → Keeps s id r
    → release_paid_completion s id hash ≡ (s, ok r)
unfolding Keeps release_paid_completion release_pending
Keeps-again s id hash r (p, at, kept) = rw (at, kept) refl

-- A call that returned a completion keeps it.
KeepsAnswer : FuseService × Result ServiceError ReleasedCompletion → String → Type 0
KeepsAnswer (s, ok r) id = Keeps s id r
KeepsAnswer (s, err e) id = Unit {0}

release_pending-KeepsAnswer :
    (s : FuseService) (id : String) (p : Pending) (released : Option ReleasedCompletion)
    (hash : String)
    → lookup id s.pending ≡ some p
    → p.released ≡ released
    → KeepsAnswer (release_pending s id p released hash) id
unfolding release_pending KeepsAnswer Keeps
release_pending-KeepsAnswer s id p (some r) hash at is = (p, at, is)
release_pending-KeepsAnswer s id p none hash at is =
    elim (Outcome-cases (reconcile s.ledger id (pos p.exact_cost_micros))) [
      | inr (error, e) ↦ rw e tt
      | inl ((l', r), e) ↦ elim (Bool-cases (is_tripped p.circuit.state)) [
        | inr fine ↦ rw (e, fine) (release_with-Keeps s id p hash l' (pos 0))
        | inl shut ↦ elim (Outcome-cases (reclaim_available l' p.request.child_id)) [
          | inl ((l'', amount), f) ↦ rw (e, shut, f) (release_with-Keeps s id p hash l'' amount)
          | inr (error, f) ↦ rw (e, shut, f) tt
        ]
      ]
    ]

release_found-KeepsAnswer :
    (s : FuseService) (id : String) (found : Option Pending) (hash : String)
    → lookup id s.pending ≡ found
    → KeepsAnswer (release_found s id found hash) id
unfolding KeepsAnswer
release_found-KeepsAnswer s id none hash at = tt
release_found-KeepsAnswer s id (some p) hash at =
    release_pending-KeepsAnswer s id p p.released hash at refl

-- A completion that was released is released again as it was, whatever payment is named the second
-- time, and nothing changes.
pub release_again :
    (s : FuseService) (id hash other_hash : String) {s' : FuseService} {r : ReleasedCompletion}
    → release_paid_completion s id hash ≡ (s', ok r)
    → release_paid_completion s' id other_hash ≡ (s', ok r)
unfolding release_paid_completion KeepsAnswer
release_again s id hash other_hash {s'} {r} e = Keeps-again s' id other_hash r (
    subst (λ x. KeepsAnswer x id) e
      (release_found-KeepsAnswer s id (lookup id s.pending) hash refl))
