-- ===== src/Base/Maps.antt =====
-- A `Map` or `Record` with text keys, as an association list in insertion order: a write to a
-- present key keeps its place.
use Prim.Native.String.{String}
use mathlib.Core.Logic.{inl, inr}
use mathlib.Core.Path.{◌≡◌, refl, subst}
use mathlib.Core.List.{List, [], ◌∷◌}
use mathlib.Core.Option.{Option, none, some}
use native.Mathlib.Omega.{arith}
use text.Mathlib.Text.{◌==◌}
use text.Mathlib.TextEquality.{eq_iff}
use text.Mathlib.TextPositions.{eq_refl}
use fuse_agent_control_plane.Base.Tests.{if◌then◌else◌, Bool-cases}
use fuse_agent_control_plane.Base.Int.{ℤ, pos, ◌+ℤ◌, ◌≤ℤ◌, int_laws, parts_of_eq}

abbrev pub Dict : Type 0 → Type 0
Dict V = List (String × V)

module _ {V : Type 0} where
  unfoldable pub lookup : String → Dict V → Option V
  lookup key [] = none
  lookup key ((here, value) ∷ rest) = if here == key then some value else lookup key rest

  unfoldable pub remove : String → Dict V → Dict V
  remove key [] = []
  remove key ((here, value) ∷ rest) = if here == key then rest else (here, value) ∷ remove key rest

  unfoldable pub insert : String → V → Dict V → Dict V
  insert key new [] = (key, new) ∷ []
  insert key new ((here, value) ∷ rest) =
      if here == key then (here, new) ∷ rest else (here, value) ∷ insert key new rest

  pub lookup-insert :
      (key asked : String) (new : V) (dict : Dict V)
      → lookup asked (insert key new dict) ≡ (if key == asked then some new else lookup asked dict)
  unfolding lookup insert
  lookup-insert key asked new [] = refl
  lookup-insert key asked new ((here, value) ∷ rest) =
      let found = lookup-insert key asked new rest in
      ground (arith, found, eq_iff key asked, eq_iff here key, eq_iff here asked)

  pub lookup-insert_self :
      (key : String) (new : V) (dict : Dict V) → lookup key (insert key new dict) ≡ some new
  lookup-insert_self key new dict = simp (lookup-insert, eq_refl)

  -- The sum of a measure over the values.
  abbrev pub sum_by : (V → ℤ) → Dict V → ℤ
  sum_by f [] = pos 0
  sum_by f ((k, v) ∷ m) = f v +ℤ sum_by f m

  pub sum_by-insert_new :
      (f : V → ℤ) (k : String) (v : V) (m : Dict V)
      → lookup k m ≡ none
      → sum_by f (insert k v m) ≡ sum_by f m +ℤ f v
  unfolding lookup insert
  sum_by-insert_new f k v [] h = omega int_laws
  sum_by-insert_new f k v ((j, w) ∷ m) h = elim (Bool-cases (j == k)) [
    | inl e ↦ let clash : some w ≡ none = rw e at h in cc
    | inr e ↦ rw e (omega (int_laws, parts_of_eq (sum_by-insert_new f k v m (rw e at h))))
  ]

  pub sum_by-insert_old :
      (f : V → ℤ) (k : String) (v w : V) (m : Dict V)
      → lookup k m ≡ some v
      → sum_by f (insert k w m) +ℤ f v ≡ sum_by f m +ℤ f w
  unfolding lookup insert
  sum_by-insert_old f k v w [] h = cc
  sum_by-insert_old f k v w ((j, u) ∷ m) h = elim (Bool-cases (j == k)) [
    | inl e ↦ let same : u ≡ v = ground (arith, e) in rw (e, same) (omega int_laws)
    | inr e ↦ rw e (omega (int_laws, parts_of_eq (sum_by-insert_old f k v w m (rw e at h))))
  ]

-- What holds of every value.
module _ {V : Type 0} where
  abbrev pub AllValues : (V → Type 0) → Dict V → Type 0
  AllValues P [] = Unit {0}
  AllValues P ((k, v) ∷ m) = P v × AllValues P m

  pub AllValues-insert :
      (P : V → Type 0) (k : String) (v : V) (m : Dict V)
      → P v
      → AllValues P m
      → AllValues P (insert k v m)
  unfolding insert
  AllValues-insert P k v [] p h = (p, tt)
  AllValues-insert P k v ((j, w) ∷ m) p (q, h) = elim (Bool-cases (j == k)) [
    | inl e ↦ rw e (p, h)
    | inr e ↦ rw e (q, AllValues-insert P k v m p h)
  ]

  pub AllValues-lookup :
      (P : V → Type 0) (k : String) (v : V) (m : Dict V) → lookup k m ≡ some v → AllValues P m → P v
  unfolding lookup
  AllValues-lookup P k v [] e h = let clash : none ≡ some v = e in cc
  AllValues-lookup P k v ((j, w) ∷ m) e (q, h) = elim (Bool-cases (j == k)) [
    | inl t ↦ let same : some w ≡ some v = rw t at e in subst P {x = w} {y = v} (cc) q
    | inr t ↦ AllValues-lookup P k v m (rw t at e) h
  ]

  pub AllValues-mono :
      (P Q : V → Type 0) (m : Dict V) → ((v : V) → P v → Q v) → AllValues P m → AllValues Q m
  AllValues-mono P Q [] f h = tt
  AllValues-mono P Q ((k, v) ∷ m) f (p, h) = (f v p, AllValues-mono P Q m f h)

  -- A sum of numbers that are not negative is at least each of them.
  pub sum_by_nonneg :
      (f : V → ℤ) (m : Dict V) → AllValues (λ v. pos 0 ≤ℤ f v) m → pos 0 ≤ℤ sum_by f m
  sum_by_nonneg f [] h = omega arith
  sum_by_nonneg f ((k, v) ∷ m) (p, h) = omega (int_laws, sum_by_nonneg f m h)

  pub le-sum_by :
      (f : V → ℤ) (k : String) (v : V) (m : Dict V)
      → AllValues (λ v. pos 0 ≤ℤ f v) m
      → lookup k m ≡ some v
      → f v ≤ℤ sum_by f m
  unfolding lookup
  le-sum_by f k v [] h e = let clash : none ≡ some v = e in cc
  le-sum_by f k v ((j, w) ∷ m) (p, h) e = elim (Bool-cases (j == k)) [
    | inl t ↦
        let same : some w ≡ some v = rw t at e in
        let first : w ≡ v = cc in rw (← first) (omega (int_laws, sum_by_nonneg f m h))
    | inr t ↦ omega (int_laws, le-sum_by f k v m h (rw t at e))
  ]
