-- ===== src/Base/Key.antt =====
-- defluencer/src/indexing/ordered_trees/traits.rs: the trait `Key`. Of its bounds the trees use
-- `Ord`, with the laws that the standard library asks of it.
use Prim.Native.Nat.{ℕ, compare, Ordering}
use Prim.Native.Nat.Ordering.{lt, eq, gt}
use mathlib.Core.Path.{◌≡◌, refl}
use mathlib.Core.Logic.{◌⊎◌, inl, inr}
use mathlib.Core.Bool.{Bool, true, false}
use native.Mathlib.Omega.{arith}

pub record Key (K : Type 0) : Type 0 where
  pub cmp : K → K → Ordering
  pub cmp_refl : (a : K) → cmp a a ≡ eq
  pub eq_of_cmp : (a b : K) → cmp a b ≡ eq → a ≡ b
  pub gt_of_lt : (a b : K) → cmp a b ≡ lt → cmp b a ≡ gt
  pub lt_of_gt : (a b : K) → cmp a b ≡ gt → cmp b a ≡ lt
  pub lt_trans : (a b c : K) → cmp a b ≡ lt → cmp b c ≡ lt → cmp a c ≡ lt

infix 50 ◌≺◌
abbrev pub ◌≺◌ : {K : Type 0} ⦃o : Key K⦄ → K → K → Type 0
◌≺◌ ⦃o⦄ a b = o.cmp a b ≡ lt

-- `a == b`
abbrev pub same_key : {K : Type 0} ⦃o : Key K⦄ → K → K → Bool
same_key ⦃o⦄ a b = elim (o.cmp a b) [ eq ↦ true | _ ↦ false ]

pub Ordering-cases : (c : Ordering) → (c ≡ lt) ⊎ ((c ≡ eq) ⊎ (c ≡ gt))
Ordering-cases lt = inl refl
Ordering-cases eq = inr (inl refl)
Ordering-cases gt = inr (inr refl)

pub cmp_refl_ℕ : (a : ℕ) → compare a a ≡ eq
cmp_refl_ℕ a = ground arith

pub eq_of_cmp_ℕ : (a b : ℕ) → compare a b ≡ eq → a ≡ b
eq_of_cmp_ℕ a b h = ground arith

pub gt_of_lt_ℕ : (a b : ℕ) → compare a b ≡ lt → compare b a ≡ gt
gt_of_lt_ℕ a b h = ground arith

pub lt_of_gt_ℕ : (a b : ℕ) → compare a b ≡ gt → compare b a ≡ lt
lt_of_gt_ℕ a b h = ground arith

pub lt_trans_ℕ : (a b c : ℕ) → compare a b ≡ lt → compare b c ≡ lt → compare a c ≡ lt
lt_trans_ℕ a b c h k = ground arith

instance abbrev pub nat_key : Key ℕ
nat_key = record {
  cmp = compare;
  cmp_refl = cmp_refl_ℕ;
  eq_of_cmp = eq_of_cmp_ℕ;
  gt_of_lt = gt_of_lt_ℕ;
  lt_of_gt = lt_of_gt_ℕ;
  lt_trans = lt_trans_ℕ;
}

module _ {K : Type 0} ⦃o : Key K⦄ where
  pub same_key_refl : (a : K) → same_key a a ≡ true
  same_key_refl a = rw (o.cmp_refl a, same_key) refl

  pub eq_of_same_key : (a b : K) → same_key a b ≡ true → a ≡ b
  eq_of_same_key a b h = ground (arith, o.eq_of_cmp a b)

  pub same_key-lt : (a b : K) → o.cmp a b ≡ lt → same_key a b ≡ false
  same_key-lt a b h = rw (h, same_key) refl

  pub same_key-gt : (a b : K) → o.cmp a b ≡ gt → same_key b a ≡ false
  same_key-gt a b h = rw (o.lt_of_gt a b h, same_key) refl
