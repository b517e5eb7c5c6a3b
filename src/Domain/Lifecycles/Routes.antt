-- ===== src/Domain/Lifecycles/Routes.antt =====
-- Which routes the three transition tables allow.
use fuse_agent_control_plane.Base.{
  ℕ, ◌+◌, ◌≤◌, ◌<◌, ℤ, Bool, true, false, decide, decide_iff, ap, Option, List, [], ◌∷◌, length,
  any, All, String, ◌≡◌, sym, ◌∙◌, subst, arith, ◌⊎◌, inl, inr, Bool-cases,
}
use fuse_agent_control_plane.Domain.Lifecycles.{LifecycleTransition, listed}
use fuse_agent_control_plane.Domain.Lifecycles.History.{IsChain}

module _ {State : Type 0} (d : Discrete State) (date_parse : String → Option ℤ) where
  listed-All :
      (P : State → Type 0) (to : State) (states : List State)
      → listed d to states ≡ true
      → All P states
      → P to
  listed-All P to [] h p = cc
  listed-All P to (s ∷ states) h (p, ps) = elim (Bool-cases (decide (d s to))) [
    | inl t ↦ subst P ((decide_iff _).0 t) p
    | inr f ↦ listed-All P to states (rw f at h) ps
  ]

  -- Some event has led to the state.
  abbrev pub visits : State → List (LifecycleTransition State) → Bool
  visits g es = any (λ e. decide (d e.target g)) es

  visits_head :
      (g : State) (e : LifecycleTransition State) (es : List (LifecycleTransition State))
      → e.target ≡ g
      → visits g (e ∷ es) ≡ true
  visits_head g e es h = rw ((decide_iff (d e.target g)).1 h)

  visits_tail :
      (g : State) (e : LifecycleTransition State) (es : List (LifecycleTransition State))
      → visits g es ≡ true
      → visits g (e ∷ es) ≡ true
  visits_tail g e es h = ground arith

  module _ (table : State → List State) where
    -- A number that falls along every transition bounds the history.
    pub chain_bounded :
        (rank : State → ℕ)
        → ((s : State) → All (λ t. rank t < rank s) (table s))
        → (n : ℕ) (s t : State) (es : List (LifecycleTransition State))
        → IsChain d date_parse table n s es t
        → length es + rank t ≤ rank s
    chain_bounded rank falls n s t [] h = rw h (omega arith)
    chain_bounded rank falls n s t (e ∷ es) (src, mem, c, num, h) = omega (
      arith,
      chain_bounded rank falls (n + 1) e.target t es h,
      listed-All (λ t. rank t < rank s) e.target (table s) mem (falls s),
    )

    -- States that are entered only by way of `g` are reached only after `g`.
    pub chain_gated :
        (g : State) (beyond : State → Bool)
        → ((s : State) → beyond s ≡ false → All (λ t. (beyond t ≡ false) ⊎ (t ≡ g)) (table s))
        → (n : ℕ) (s t : State) (es : List (LifecycleTransition State))
        → IsChain d date_parse table n s es t
        → beyond s ≡ false
        → beyond t ≡ true
        → visits g es ≡ true
    chain_gated g beyond gate n s t [] h out into =
        let clash : false ≡ true = sym out ∙ ap beyond h ∙ into in cc
    chain_gated g beyond gate n s t (e ∷ es) (src, mem, c, num, h) out into =
        elim (listed-All (λ t. (beyond t ≡ false) ⊎ (t ≡ g)) e.target (table s) mem (gate s out)) [
          | inl still ↦
              visits_tail g e es (chain_gated g beyond gate (n + 1) e.target t es h still into)
          | inr at ↦ visits_head g e es at
        ]
