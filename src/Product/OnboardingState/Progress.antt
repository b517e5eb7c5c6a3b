-- ===== src/Product/OnboardingState/Progress.antt =====
-- What every onboarding history guarantees.
use fuse_agent_control_plane.Base.{
  Bool, true, false, ◌||◌, some, is_some, List, [], ◌∷◌, ◌++◌, String, ok, or_keep, throw_if, trim,
  ◌==◌, >>-eq-ok, ok-injective, if◌then◌else◌, Option-cases, ◌≡◌, refl, ◌∙◌, subst, arith, ◌⊎◌, inl,
  inr,
}
use fuse_agent_control_plane.Product.OnboardingState.{
  OnboardingState, created, provider_verified, payment_pending, payment_ready, agent_pending,
  mandate_pending, ready_to_run, first_run_completed, blocked, EventType, OnboardingEvent,
  OnboardingTransition, OnboardingSnapshot, next_state, initial_onboarding_state, new_snapshot,
  workspace_required, advance_to, advance_onboarding, reason_of,
}

abbrev pub is_blocked : OnboardingState → Bool
is_blocked blocked = true
is_blocked _ = false

-- The workspace's account is paid for.
abbrev pub is_paid : OnboardingState → Bool
is_paid payment_ready = true
is_paid agent_pending = true
is_paid mandate_pending = true
is_paid ready_to_run = true
is_paid first_run_completed = true
is_paid _ = false

abbrev pub is_verified : OnboardingState → Bool
is_verified provider_verified = true
is_verified payment_pending = true
is_verified s = is_paid s

abbrev pub starts_over : OnboardingState → Bool
starts_over created = true
starts_over _ = false

abbrev pub enters_verified : OnboardingState → Bool
enters_verified provider_verified = true
enters_verified _ = false

abbrev pub enters_paid : OnboardingState → Bool
enters_paid payment_ready = true
enters_paid _ = false

abbrev after_one : (OnboardingState → Bool) → Bool → OnboardingState → Bool
after_one enters seen target = if starts_over target then false else (seen || enters target)

-- Since the workspace last started over, a transition entered a state of the kind.
abbrev pub entered_since : (OnboardingState → Bool) → Bool → List OnboardingTransition → Bool
entered_since enters seen [] = seen
entered_since enters seen (t ∷ ts) = entered_since enters (after_one enters seen t.target) ts

entered_since-snoc :
    (enters : OnboardingState → Bool) (seen : Bool) (ts : List OnboardingTransition)
    (t : OnboardingTransition)
    → entered_since enters seen (ts ++ t ∷ [])
      ≡ after_one enters (entered_since enters seen ts) t.target
entered_since-snoc enters seen [] t = refl
entered_since-snoc enters seen (x ∷ ts) t =
    entered_since-snoc enters (after_one enters seen x.target) ts t

pub record Inv (s : OnboardingSnapshot) : Type 0 where
  pub verified :
      is_verified s.state ≡ true → entered_since enters_verified false s.transitions ≡ true
  pub paid : is_paid s.state ≡ true → entered_since enters_paid false s.transitions ≡ true
  pub reason_given : is_some s.block_reason ≡ is_blocked s.state

-- What the table guarantees of one step.
step_verified :
    (s : OnboardingState) (e : EventType) {t : OnboardingState} (seen : Bool)
    → next_state s e ≡ some t
    → (is_verified s ≡ true → seen ≡ true)
    → is_verified t ≡ true
    → after_one enters_verified seen t ≡ true
unfolding next_state
step_verified s e seen h was now = ground arith

step_paid :
    (s : OnboardingState) (e : EventType) {t : OnboardingState} (seen : Bool)
    → next_state s e ≡ some t
    → (is_paid s ≡ true → seen ≡ true)
    → is_paid t ≡ true
    → after_one enters_paid seen t ≡ true
unfolding next_state
step_paid s e seen h was now = ground arith

step_reason :
    (s : OnboardingState) (e : EventType) {t : OnboardingState} (reason : String)
    → next_state s e ≡ some t
    → is_some (reason_of e reason) ≡ is_blocked t
unfolding next_state
step_reason s e reason h = ground arith

advance_to-Inv :
    (s : OnboardingSnapshot) (e : OnboardingEvent) (now : String) {t : OnboardingState}
    → next_state s.state e.type ≡ some t
    → Inv s
    → Inv (advance_to t s e now)
unfolding advance_to
advance_to-Inv s e now h v = record {
  verified = λ k.
      entered_since-snoc enters_verified false s.transitions _
      ∙ step_verified s.state e.type (entered_since enters_verified false s.transitions) h
          v.verified k;
  paid = λ k.
      entered_since-snoc enters_paid false s.transitions _
      ∙ step_paid s.state e.type (entered_since enters_paid false s.transitions) h v.paid k;
  reason_given = step_reason s.state e.type e.reason h;
}

unfoldable pub run : OnboardingSnapshot → List (OnboardingEvent × String) → OnboardingSnapshot
run s [] = s
run s ((e, now) ∷ es) = run (or_keep s (advance_onboarding s e now)) es

advance-Inv :
    (s : OnboardingSnapshot) (e : OnboardingEvent) (now : String)
    → Inv s
    → Inv (or_keep s (advance_onboarding s e now))
unfolding advance_onboarding
advance-Inv s e now v = elim (Option-cases (next_state s.state e.type)) [
  | inl h ↦ rw (h, advance_onboarding) v
  | inr (t, h) ↦ rw (h, advance_onboarding) (advance_to-Inv s e now h v)
]

run-Inv : (s : OnboardingSnapshot) (es : List (OnboardingEvent × String)) → Inv s → Inv (run s es)
unfolding run
run-Inv s [] v = v
run-Inv s ((e, now) ∷ es) v =
    run-Inv (or_keep s (advance_onboarding s e now)) es (advance-Inv s e now v)

initial-Inv : (id : String) {s : OnboardingSnapshot} → initial_onboarding_state id ≡ ok s → Inv s
unfolding initial_onboarding_state
initial-Inv id {s} h =
    let (_, made) =
      >>-eq-ok (throw_if (trim id == "") workspace_required) (ok (new_snapshot id)) h in
    subst Inv {x = new_snapshot id} (ok-injective made)
      (record { verified = λ k. cc; paid = λ k. cc; reason_given = refl })

-- Whatever events are offered to a new workspace, one that is ready to run, or has completed its
-- first run, entered provider_verified and payment_ready since it was created or last unblocked.
pub ready_needs_provider_and_payment :
    (id : String) {s : OnboardingSnapshot} (es : List (OnboardingEvent × String))
    → initial_onboarding_state id ≡ ok s
    → ((run s es).state ≡ ready_to_run) ⊎ ((run s es).state ≡ first_run_completed)
    → (entered_since enters_verified false (run s es).transitions ≡ true)
      × (entered_since enters_paid false (run s es).transitions ≡ true)
ready_needs_provider_and_payment id {s} es h r =
    let v = run-Inv s es (initial-Inv id h) in ground (arith, v.verified, v.paid)

-- Whatever events are offered, a workspace has a reason for its block exactly when it is blocked.
pub blocked_has_reason :
    (id : String) {s : OnboardingSnapshot} (es : List (OnboardingEvent × String))
    → initial_onboarding_state id ≡ ok s
    → is_some (run s es).block_reason ≡ is_blocked (run s es).state
blocked_has_reason id {s} es h = (run-Inv s es (initial-Inv id h)).reason_given
