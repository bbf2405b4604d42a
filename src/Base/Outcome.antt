-- ===== src/Base/Outcome.antt =====
-- Results and actions. A Rust function that returns `Result` and may panic returns a `Result`
-- here; one that also talks to the IPFS node is an action, which takes the state of the node and
-- gives it back beside the outcome, also when it fails. (defluencer/src/errors.rs)
use mathlib.Core.Path.{◌≡◌, refl, subst}
use mathlib.Core.Bool.{Bool, true, false}
use rust_defluencer.Base.Tests.{if◌then◌else◌}
use mathlib.Core.Option.{Option, none, some}

-- The variants that the modelled code returns, of the crate's error type and of that of its trees
-- (indexing/ordered_trees/errors.rs), without the payload of the wrapped errors.
pub data Error : Type 0 where
  max_depth not_found already_added timestamp multihash ipfs_api : Error
  empty_signature empty_data address_mismatch data_mismatch protobuf signature : Error
  unknown_value_type unknown_key_type unknown_chunking_strategy unknown_codec ipld decode : Error

pub data Result {ℓ} (A : Type ℓ) : Type ℓ where
  ok : A → Result A
  err : Error → Result A
  panic : Result A

-- The `?` operator on a value that no state goes with.
abbrev pub and_then {ℓ κ} : {A : Type ℓ} {B : Type κ} → Result A → (A → Result B) → Result B
and_then (ok a) f = f a
and_then (err e) f = err e
and_then panic f = panic

abbrev pub or_panic {ℓ} : {A : Type ℓ} → Option A → Result A
or_panic (some a) = ok a
or_panic none = panic

abbrev pub Action {ℓ} : Type ℓ → Type ℓ → Type ℓ
Action S A = S → Result A × S

module _ {ℓ} {S A : Type ℓ} where
  abbrev pub pure : A → Action S A
  pure a s = (ok a, s)

  abbrev pub lift : Result A → Action S A
  lift r s = (r, s)

  -- A read of the state.
  abbrev pub read : (S → Result A) → Action S A
  read f s = (f s, s)

module _ {ℓ} {S A B : Type ℓ} where
  abbrev pub resume : Result A → S → (A → Action S B) → Result B × S
  resume (ok a) s f = f a s
  resume (err e) s f = (err e, s)
  resume panic s f = (panic, s)

  infixl 5 ◌>>=◌
  abbrev pub ◌>>=◌ : Action S A → (A → Action S B) → Action S B
  ◌>>=◌ m f s = resume (m s).0 (m s).1 f

-- Where the action returns, `P` holds of what it returns and of the state that it leaves.
abbrev pub Post {ℓ κ} : {S A : Type ℓ} → (A → S → Type κ) → Result A → S → Type κ
Post P (ok a) s = P a s
Post P (err e) s = Unit
Post P panic s = Unit

abbrev pub Ensures {ℓ κ} : {S A : Type ℓ} → (A → S → Type κ) → Result A × S → Type κ
Ensures P r = Post P r.0 r.1

module _ {ℓ κ μ} {S A B : Type ℓ} (P : A → S → Type κ) (Q : B → S → Type μ) where
  pub Post-resume :
      (r : Result A) (s : S) (f : A → Action S B)
      → Post P r s
      → ((a : A) → r ≡ ok a → P a s → Ensures Q (f a s))
      → Ensures Q (resume r s f)
  Post-resume (ok a) s f h k = k a refl h
  Post-resume (err e) s f h k = tt
  Post-resume panic s f h k = tt

  -- The rule for `>>=`.
  pub Ensures-bind :
      (m : Action S A) (f : A → Action S B) (s : S)
      → Ensures P (m s)
      → ((a : A) → (m s).0 ≡ ok a → P a (m s).1 → Ensures Q (f a (m s).1))
      → Ensures Q ((m >>= f) s)
  Ensures-bind m f s h k = Post-resume (m s).0 (m s).1 f h k

module _ {ℓ κ μ} {S A : Type ℓ} (P : A → S → Type κ) (Q : A → S → Type μ) where
  -- A weaker postcondition.
  pub Post-imp :
      (r : Result A) (s : S) → ((a : A) → r ≡ ok a → P a s → Q a s) → Post P r s → Post Q r s
  Post-imp (ok a) s f h = f a refl h
  Post-imp (err e) s f h = tt
  Post-imp panic s f h = tt

module _ {ℓ κ μ} {S A : Type ℓ} (P : A → S → Type κ) (Q : A → S → Type μ) where
  -- Two postconditions at once.
  pub Post-and : (r : Result A) (s : S) → Post P r s → Post Q r s → Post (λ a t. P a t × Q a t) r s
  Post-and (ok a) s h k = (h, k)
  Post-and (err e) s h k = tt
  Post-and panic s h k = tt

module _ {ℓ κ} {S A : Type ℓ} (P : A → S → Type κ) where
  -- A postcondition, at a run that returned.
  pub Ensures-returned : (x : Result A × S) (a : A) (s : S) → Ensures P x → x ≡ (ok a, s) → P a s
  Ensures-returned x a s h e = subst (Ensures P) e h

  pub Ensures-intro : (x : Result A × S) → ((a : A) → x.0 ≡ ok a → P a x.1) → Ensures P x
  Ensures-intro (ok a, s) h = h a refl
  Ensures-intro (err e, s) h = tt
  Ensures-intro (panic, s) h = tt

-- A chain that returns has a first step that returned.
pub and_then-returned :
    {A B : Type 0} (r : Result A) (f : A → Result B) (b : B)
    → and_then r f ≡ ok b
    → (a : A) × (r ≡ ok a) × (f a ≡ ok b)
and_then-returned (ok a) f b h = (a, refl, h)
and_then-returned (err e) f b h = cc
and_then-returned panic f b h = cc

pub returned_unique : {A : Type 0} (r : Result A) (a b : A) → r ≡ ok a → r ≡ ok b → a ≡ b
returned_unique r a b h k = cc

-- A guarded result that returned.
pub else_returned :
    {A : Type 0} (b : Bool) (e : Error) (y : Result A) (a : A)
    → (if b then err e else y) ≡ ok a
    → y ≡ ok a
else_returned true e y a h = cc
else_returned false e y a h = h

pub then_returned :
    {A : Type 0} (b : Bool) (x : Result A) (e : Error) (a : A)
    → (if b then x else err e) ≡ ok a
    → (b ≡ true) × (x ≡ ok a)
then_returned true x e a h = (refl, h)
then_returned false x e a h = cc
