-- ===== src/Domain/Lifecycles/History.antt =====
-- The history of a lifecycle, over any sequence of attempted transitions.
use fuse_agent_control_plane.Base.{
  ℕ, ◌+◌, ℤ, true, false, is_some, Option, List, [], ◌∷◌, ◌++◌, length, String, is_blank, ok, err,
  ◌≡◌, refl, sym, ◌⊎◌, inl, inr, ◌∙◌, subst, arith,
}
use fuse_agent_control_plane.Domain.Lifecycles.{
  TransitionContext, LifecycleTransition, Lifecycle, listed, transition,
}

module _ {State : Type 0} (d : Discrete State) (date_parse : String → Option ℤ) where
  -- A transition that is refused leaves the lifecycle as it was.
  unfoldable pub attempt : Lifecycle State → State × TransitionContext → Lifecycle State
  attempt l (to, context) = elim (transition d date_parse l to context) [ ok l' ↦ l' | err e ↦ l ]

  unfoldable pub run : Lifecycle State → List (State × TransitionContext) → Lifecycle State
  run l [] = l
  run l (a ∷ tries) = run (attempt l a) tries

  abbrev pub IsComplete : TransitionContext → Type 0
  IsComplete c =
      (is_blank c.actor_id ≡ false)
      × (is_blank c.causation_id ≡ false)
      × (is_some (date_parse c.occurred_at) ≡ true)

  -- The events lead from one state to another along the table, each with a complete context, and
  -- are numbered from `n + 1`.
  abbrev pub IsChain :
      (State → List State) → ℕ → State → List (LifecycleTransition State) → State → Type 0
  IsChain table n s [] t = s ≡ t
  IsChain table n s (e ∷ es) t =
      (e.source ≡ s)
      × (listed d e.target (table s) ≡ true)
      × IsComplete e.context
      × (e.sequence ≡ n + 1)
      × IsChain table (n + 1) e.target es t

  IsChain-snoc :
      (table : State → List State) (n : ℕ) (s : State) (es : List (LifecycleTransition State))
      (t : State) (e : LifecycleTransition State)
      → IsChain table n s es t
      → e.source ≡ t
      → listed d e.target (table t) ≡ true
      → IsComplete e.context
      → e.sequence ≡ n + length es + 1
      → IsChain table n s (es ++ e ∷ []) e.target
  IsChain-snoc table n s [] t e h src mem c num = (
    src ∙ sym h,
    subst (λ x. listed d e.target (table x) ≡ true) (sym h) mem,
    c,
    omega arith,
    refl,
  )
  IsChain-snoc table n s (x ∷ es) t e (a, b, k, m, h) src mem c num =
      (a, b, k, m, IsChain-snoc table (n + 1) x.target es t e h src mem c (omega arith))

  abbrev event_of : Lifecycle State → State × TransitionContext → LifecycleTransition State
  event_of l (to, context) = record {
    context = context;
    entity_id = l.entity_id;
    kind = l.kind;
    source = l.current;
    target = to;
    sequence = length l.events + 1;
  }

  -- An attempt changes nothing, or it was allowed and appends its event.
  pub attempt_cases :
      (l : Lifecycle State) (to : State) (c : TransitionContext)
      → (attempt l (to, c) ≡ l)
        ⊎ ((attempt l (to, c)
              ≡ record l { events = l.events ++ event_of l (to, c) ∷ []; current = to })
            × (listed d to (l.transitions l.current) ≡ true)
            × IsComplete c)
  unfolding attempt transition
  attempt_cases l to c = ground arith

  attempt-IsChain :
      (s : State) (l : Lifecycle State) (a : State × TransitionContext)
      → IsChain l.transitions 0 s l.events l.current
      → let l' = attempt l a in IsChain l'.transitions 0 s l'.events l'.current
  attempt-IsChain s l (to, c) h = elim (attempt_cases l to c) [
    | inl e ↦ rw e h
    | inr (e, mem, done) ↦
        rw e (IsChain-snoc l.transitions 0 s l.events l.current _ h refl mem done (omega arith))
  ]

  run-IsChain :
      (s : State) (l : Lifecycle State) (tries : List (State × TransitionContext))
      → IsChain l.transitions 0 s l.events l.current
      → IsChain (run l tries).transitions 0 s (run l tries).events (run l tries).current
  unfolding run
  run-IsChain s l [] h = h
  run-IsChain s l (a ∷ tries) h = run-IsChain s (attempt l a) tries (attempt-IsChain s l a h)

  pub attempt-transitions :
      (l : Lifecycle State) (a : State × TransitionContext)
      → (attempt l a).transitions ≡ l.transitions
  attempt-transitions l (to, c) = elim (attempt_cases l to c) [
    | inl e ↦ rw e
    | inr (e, _, _) ↦ rw e
  ]

  run-transitions :
      (l : Lifecycle State) (tries : List (State × TransitionContext))
      → (run l tries).transitions ≡ l.transitions
  unfolding run
  run-transitions l [] = refl
  run-transitions l (a ∷ tries) = run-transitions (attempt l a) tries ∙ attempt-transitions l a

  -- Whatever is attempted on a lifecycle with no events, the events lead from the state it was in
  -- to its current state along its table, each with a complete context, numbered 1, 2, 3 and so on.
  pub history-IsChain :
      (l : Lifecycle State) (tries : List (State × TransitionContext))
      → l.events ≡ []
      → IsChain l.transitions 0 l.current (run l tries).events (run l tries).current
  history-IsChain l tries h =
      subst (λ t. IsChain t 0 l.current (run l tries).events (run l tries).current)
        (run-transitions l tries)
        (run-IsChain l.current l tries
          (subst (λ es. IsChain l.transitions 0 l.current es l.current) (sym h) refl))
