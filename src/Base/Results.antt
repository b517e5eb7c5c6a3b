-- ===== src/Base/Results.antt =====
-- A call that returns or throws, for `do` blocks.
use mathlib.Core.Path.{◌≡◌, refl}
use mathlib.Core.Logic.{◌⊎◌, inl, inr}
use mathlib.Core.Bool.{Bool, true, false}
use mathlib.Core.Option.{Option, none, some}
use mathlib.Core.List.{List, [], ◌∷◌}

pub data Result (E A : Type 0) : Type 0 where
  ok : A → Result E A
  err : E → Result E A

-- `if (b) throw new Error(e)`.
abbrev pub throw_if : {E : Type 0} → Bool → E → Result E (Unit {0})
throw_if false error = ok tt
throw_if true error = err error

abbrev pub or_throw : {E A : Type 0} → Option A → E → Result E A
or_throw none error = err error
or_throw (some value) error = ok value

infixl 5 ◌>>=◌
abbrev pub ◌>>=◌ : {E A B : Type 0} → Result E A → (A → Result E B) → Result E B
ok value >>= next = next value
err error >>= next = err error

infixl 5 ◌>>◌
abbrev pub ◌>>◌ : {E B : Type 0} → Result E (Unit {0}) → Result E B → Result E B
first >> second = first >>= λ done. second

-- `for (const x of xs) f(x)` where `f` only throws.
abbrev pub for_each : {E A : Type 0} → (A → Result E (Unit {0})) → List A → Result E (Unit {0})
for_each f [] = ok tt
for_each f (x ∷ xs) = f x >> for_each f xs

abbrev pub is_ok : {E A : Type 0} → Result E A → Bool
is_ok (ok a) = true
is_ok (err e) = false

pub Result-cases : {E : Type 0} (m : Result E (Unit {0})) → (m ≡ ok tt) ⊎ ((e : E) × (m ≡ err e))
Result-cases (ok tt) = inl refl
Result-cases (err e) = inr (e, refl)

-- What a chain that returned has passed.
pub >>-eq-ok :
    {E A : Type 0} (m : Result E (Unit {0})) (k : Result E A) {a : A}
    → (m >> k) ≡ ok a
    → (m ≡ ok tt) × (k ≡ ok a)
>>-eq-ok (ok tt) k h = (refl, h)
>>-eq-ok (err e) k h = cc

pub >>=-eq-ok :
    {E A B : Type 0} (call : Result E A) (next : A → Result E B) {end : B}
    → (call >>= next) ≡ ok end
    → (value : A) × (call ≡ ok value) × (next value ≡ ok end)
>>=-eq-ok (ok value) next returned = (value, refl, returned)
>>=-eq-ok (err error) next returned = cc

pub Outcome-cases :
    {E A : Type 0} (m : Result E A) → ((a : A) × (m ≡ ok a)) ⊎ ((e : E) × (m ≡ err e))
Outcome-cases (ok a) = inl (a, refl)
Outcome-cases (err e) = inr (e, refl)

pub ok-injective : {E A : Type 0} {a b : A} → ◌≡◌ {A = Result E A} (ok a) (ok b) → a ≡ b
ok-injective h = cc

-- The state after a call that may throw, which then leaves it as it was.
abbrev pub or_keep : {E A : Type 0} → A → Result E A → A
or_keep a (ok b) = b
or_keep a (err e) = a
