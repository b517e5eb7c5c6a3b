-- ===== src/Persistence/PolicyStore/Rows.antt =====
-- Lists of rows after an update by key: what is found in them, what they add up to, and what holds
-- of each.
use fuse_agent_control_plane.Persistence.PolicyStore.Tables.{update, sum_where}
use fuse_agent_control_plane.Base.{
  ◌≡◌, refl, sym, ap, subst, ◌∙◌, ◌⊎◌, inl, inr, Bool, true, none, some, List, [], ◌∷◌, arith,
  Bool-cases, ℤ, ◌≤ℤ◌, int_laws, find, All,
}

module _ {A : Type 0} where
  pub find-update_self :
      (p : A → Bool) (f : A → A) (xs : List A) {x : A}
      → p (f x) ≡ true
      → find p xs ≡ some x
      → find p (update p f xs) ≡ some (f x)
  find-update_self p f [] keyed found = cc
  find-update_self p f (y ∷ ys) {x} keyed found = elim (Bool-cases (p y)) [
    | inl here ↦ let same : y ≡ x = ground arith in rw (here, same) (ground arith)
    | inr there ↦
        let deeper = find-update_self p f ys keyed (ground arith) in rw there (ground arith)
  ]

  -- Another search finds what it found before, rewritten if the update was of that row.
  pub find-update :
      (p q : A → Bool) (f : A → A) (xs : List A)
      → ((x : A) → q (f x) ≡ q x)
      → (find q (update p f xs) ≡ find q xs)
        ⊎ ((x : A) × (p x ≡ true) × (find q xs ≡ some x) × (find q (update p f xs) ≡ some (f x)))
  find-update p q f [] keyed = inl refl
  find-update p q f (y ∷ ys) keyed = elim (Bool-cases (p y)) [
    | inl here ↦ elim (Bool-cases (q y)) [
      | inl asked ↦
          let still = keyed y in inr (y, here, rw asked refl, rw (here, still, asked) refl)
      | inr other ↦ let still = keyed y in inl (rw (here, still, other) refl)
    ]
    | inr there ↦ elim (Bool-cases (q y)) [
      | inl asked ↦ inl (rw (there, asked) refl)
      | inr other ↦ elim (find-update p q f ys keyed) [
        | inl same ↦ inl (rw (there, other) same)
        | inr (x, hit, found, after) ↦ inr (x, hit, rw other found, rw (there, other) after)
      ]
    ]
  ]

  pub sum_where-update_le :
      (p q : A → Bool) (f : A → A) (g : A → ℤ) (xs : List A) {x : A}
      → find p xs ≡ some x
      → q (f x) ≡ q x
      → g (f x) ≤ℤ g x
      → sum_where q g (update p f xs) ≤ℤ sum_where q g xs
  sum_where-update_le p q f g [] found same less = omega arith
  sum_where-update_le p q f g (y ∷ ys) {x} found same less = elim (Bool-cases (p y)) [
    | inl here ↦
        let first : y ≡ x = ground arith in
        rw (here, first, same)
          (elim (Bool-cases (q x)) [
            | inl e ↦ rw e (omega (int_laws, less))
            | inr e ↦ rw e (omega int_laws)
          ])
    | inr there ↦
        let rest = sum_where-update_le p q f g ys (ground arith) same less in
        rw there (omega (int_laws, rest))
  ]

  pub All-update :
      (P : A → Type 0) (p : A → Bool) (f : A → A) (xs : List A) {x : A}
      → find p xs ≡ some x
      → (P x → P (f x))
      → All P xs
      → All P (update p f xs)
  All-update P p f [] found next every = tt
  All-update P p f (y ∷ ys) {x} found next (first, others) = elim (Bool-cases (p y)) [
    | inl here ↦
        let same : y ≡ x = ground arith in
        rw here (subst (λ z. P (f z)) (sym same) (next (subst P same first)), others)
    | inr there ↦ rw there (first, All-update P p f ys (ground arith) next others)
  ]

  pub All-find :
      (P : A → Type 0) (p : A → Bool) (xs : List A) {x : A} → find p xs ≡ some x → All P xs → P x
  All-find P p [] found every = let clash : none ≡ some _ = found in cc
  All-find P p (y ∷ ys) {x} found (first, others) = elim (Bool-cases (p y)) [
    | inl here ↦ let same : y ≡ x = ground arith in subst P same first
    | inr there ↦ All-find P p ys (ground arith) others
  ]

  pub find-holds : (p : A → Bool) (xs : List A) {x : A} → find p xs ≡ some x → p x ≡ true
  find-holds p [] found = cc
  find-holds p (y ∷ ys) {x} found = elim (Bool-cases (p y)) [
    | inl here ↦ let same : y ≡ x = ground arith in rw (← same) here
    | inr there ↦ find-holds p ys (ground arith)
  ]

  pub update_missing :
      (p : A → Bool) (f : A → A) (xs : List A) → find p xs ≡ none → update p f xs ≡ xs
  update_missing p f [] missing = refl
  update_missing p f (y ∷ ys) missing = elim (Bool-cases (p y)) [
    | inl here ↦ let clash : some y ≡ none = rw here at missing in cc
    | inr there ↦
        let rest = update_missing p f ys (rw there at missing) in rw there (ap (λ zs. y ∷ zs) rest)
  ]

  pub update_unchanged :
      (p : A → Bool) (f : A → A) (xs : List A) {x : A}
      → find p xs ≡ some x
      → f x ≡ x
      → update p f xs ≡ xs
  update_unchanged p f [] found same = refl
  update_unchanged p f (y ∷ ys) {x} found same = elim (Bool-cases (p y)) [
    | inl here ↦
        let first : y ≡ x = ground arith in
        rw here (ap (λ z. z ∷ ys) (ap f first ∙ same ∙ sym first))
    | inr there ↦ rw there (ap (λ zs. y ∷ zs) (update_unchanged p f ys (rw there at found) same))
  ]
