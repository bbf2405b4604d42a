-- ===== src/Ipfs/Growing.antt =====
-- Actions that lose no block of the IPFS node.
use rust_defluencer.Base.{
  ◌≡◌, Bool, true, false, Result, Action, lift, read, ◌>>=◌, Ensures, Ensures-bind, Ensures-intro,
  Post-imp, if◌then◌else◌, ok,
}
use rust_defluencer.Ipfs.{
  Ipfs, Linked, Grows, Grows-refl, Grows-trans, dag_put, dag_get, dag_put-Ensures,
}

module _ {C S : Type 0} (ipfs : Ipfs C S) where
  -- Wherever the action returns, the node still holds all that it held.
  abbrev pub Growing : {A : Type 0} → Action S A → Type 0
  Growing {A} m = (s : S) → Ensures (λ (a : A) t. Grows ipfs s t) (m s)

  pub Growing-bind :
      {A B : Type 0} (m : Action S A) (f : A → Action S B)
      → Growing m
      → ((a : A) → Growing (f a))
      → Growing (m >>= f)
  Growing-bind {A} {B} m f h k s =
      Ensures-bind (λ (a : A) t. Grows ipfs s t) (λ (b : B) u. Grows ipfs s u) m f s (h s)
        (λ a _ g.
          Post-imp (λ (b : B) u. Grows ipfs (m s).1 u) (λ (b : B) u. Grows ipfs s u) _ _
            (λ b _ later. Grows-trans ipfs s (m s).1 _ g later) (k a (m s).1))

  -- The same for either branch.
  pub if-Growing :
      {A : Type 0} (b : Bool) (x y : Action S A)
      → Growing x
      → Growing y
      → Growing (if b then x else y)
  if-Growing true x y h k = h
  if-Growing false x y h k = k

  pub Growing-read : {A : Type 0} (f : S → Result A) → Growing (read f)
  Growing-read f s = Ensures-intro (λ a t. Grows ipfs s t) (read f s) (λ a e. Grows-refl ipfs s)

  pub Growing-lift : {A : Type 0} (r : Result A) → Growing (lift r)
  Growing-lift r s = Ensures-intro (λ a t. Grows ipfs s t) (lift r s) (λ a e. Grows-refl ipfs s)

  pub Growing-dag_put :
      {T : Type 0} (codec : Linked ipfs.Block T) (t : T) → Growing (dag_put ipfs codec t)
  Growing-dag_put codec t s =
      Post-imp (λ c s'. (dag_get ipfs codec c s' ≡ ok t) × Grows ipfs s s')
        (λ c s'. Grows ipfs s s') _ _ (λ c _ put. put.1) (dag_put-Ensures ipfs codec t s)
