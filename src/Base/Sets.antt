-- ===== src/Base/Sets.antt =====
-- `HashSet` and `BTreeMap` of the standard library, with their keys in order: one list for each set
-- of members, and one for each map.
use Prim.Native.Nat.Ordering.{lt, eq, gt}
use native.Mathlib.Omega.{arith}
use mathlib.Core.Path.{◌≡◌, refl}
use mathlib.Core.Logic.{inl, inr}
use mathlib.Core.Bool.{Bool, true, false, not, ◌&&◌, ◌||◌}
use mathlib.Core.Option.{Option, none, some}
use mathlib.Core.List.{List, [], ◌∷◌}
use rust_defluencer.Base.Tests.{if◌then◌else◌, Bool-cases}
use rust_defluencer.Base.Key.{Key, same_key, same_key-gt, same_key_refl, eq_of_same_key}

module _ {K : Type 0} ⦃o : Key K⦄ where
  -- `HashSet::contains`
  unfoldable pub set_contains : K → List K → Bool
  set_contains a [] = false
  set_contains a (x ∷ xs) = same_key a x || set_contains a xs

  -- `HashSet::insert`, less its answer, which is `not (set_contains a xs)`.
  unfoldable pub set_insert : K → List K → List K
  set_insert a [] = a ∷ []
  set_insert a (x ∷ xs) = elim (o.cmp a x) [
    | lt ↦ a ∷ x ∷ xs
    | eq ↦ a ∷ xs
    | gt ↦ x ∷ set_insert a xs
  ]

  -- `HashSet::remove`, less its answer, which is `set_contains a xs`.
  unfoldable pub set_remove : K → List K → List K
  set_remove a [] = []
  set_remove a (x ∷ xs) = if same_key a x then set_remove a xs else (x ∷ set_remove a xs)

  -- `BTreeMap::get`
  unfoldable pub map_get : {V : Type 0} → K → List (K × V) → Option V
  map_get a [] = none
  map_get a ((x, v) ∷ m) = if same_key a x then some v else map_get a m

  -- `BTreeMap::insert`
  unfoldable pub map_insert : {V : Type 0} → K → V → List (K × V) → List (K × V)
  map_insert a w [] = (a, w) ∷ []
  map_insert a w ((x, v) ∷ m) = elim (o.cmp a x) [
    | lt ↦ (a, w) ∷ (x, v) ∷ m
    | eq ↦ (a, w) ∷ m
    | gt ↦ (x, v) ∷ map_insert a w m
  ]

  -- `BTreeMap::remove`
  unfoldable pub map_remove : {V : Type 0} → K → List (K × V) → List (K × V)
  map_remove a [] = []
  map_remove a ((x, v) ∷ m) = if same_key a x then map_remove a m else ((x, v) ∷ map_remove a m)

  pub map_get-map_insert :
      {V : Type 0} (j a : K) (w : V) (m : List (K × V))
      → map_get j (map_insert a w m) ≡ (if same_key j a then some w else map_get j m)
  unfolding map_get map_insert
  map_get-map_insert j a w [] = refl
  map_get-map_insert j a w ((x, v) ∷ m) =
      ground
        (arith, map_get-map_insert j a w m, o.eq_of_cmp a x, same_key-gt a x, eq_of_same_key j x)

  pub map_get-map_remove :
      {V : Type 0} (j a : K) (m : List (K × V))
      → map_get j (map_remove a m) ≡ (if same_key j a then none else map_get j m)
  unfolding map_get map_remove
  map_get-map_remove j a [] = ground arith
  map_get-map_remove j a ((x, v) ∷ m) = ground (
    arith,
    map_get-map_remove j a m,
    eq_of_same_key a x,
    eq_of_same_key j a,
    eq_of_same_key j x,
    same_key_refl a,
  )

  pub set_contains-set_insert :
      (j a : K) (xs : List K)
      → set_contains j (set_insert a xs) ≡ (same_key j a || set_contains j xs)
  unfolding set_contains set_insert
  set_contains-set_insert j a [] = refl
  set_contains-set_insert j a (x ∷ xs) =
      ground (arith, set_contains-set_insert j a xs, o.eq_of_cmp a x)

  pub set_contains-set_remove :
      (j a : K) (xs : List K)
      → set_contains j (set_remove a xs) ≡ (not (same_key j a) && set_contains j xs)
  unfolding set_contains set_remove
  set_contains-set_remove j a [] = ground arith
  set_contains-set_remove j a (x ∷ xs) = ground (
    arith,
    set_contains-set_remove j a xs,
    eq_of_same_key a x,
    eq_of_same_key j a,
    eq_of_same_key j x,
    same_key_refl a,
  )

  -- A member adds nothing, and what is not a member takes nothing away.
  pub or_present :
      (j a : K) (xs : List K)
      → set_contains a xs ≡ true
      → (same_key j a || set_contains j xs) ≡ set_contains j xs
  or_present j a xs h = elim (Bool-cases (same_key j a)) [
    | inl e ↦ rw (eq_of_same_key j a e, h) ground arith
    | inr e ↦ rw e refl
  ]

  pub and_absent :
      (j a : K) (xs : List K)
      → set_contains a xs ≡ false
      → (not (same_key j a) && set_contains j xs) ≡ set_contains j xs
  and_absent j a xs h = elim (Bool-cases (same_key j a)) [
    | inl e ↦ rw (eq_of_same_key j a e, h) ground arith
    | inr e ↦ rw e refl
  ]
