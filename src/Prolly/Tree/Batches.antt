-- ===== src/Prolly/Tree/Batches.antt =====
-- Batches of keys in order, and what is found for them.
use rust_defluencer.Base.{
  ◌≡◌, refl, sym, ap, subst, ◌∙◌, inl, inr, List, [], ◌∷◌, ◌++◌, Option, none, some, Option-cases,
}
use rust_defluencer.Base.Key.{Key, ◌≺◌, Ordering-cases}
use rust_defluencer.Base.Sets.{set_insert}
use rust_defluencer.Prolly.Node.{BranchNode}
use rust_defluencer.Prolly.Node.Pairs.{All, All-imp, IsSorted}
use rust_defluencer.Prolly.Node.Swaps.{hits}
use rust_defluencer.Prolly.Batch.Shares.{child, with_child}
use rust_defluencer.Prolly.Tree.{sorted_keys}

module _ {K V : Type 0} where
  pub hits-append : (f : K → Option V) (xs ys : List K) → hits f (xs ++ ys) ≡ hits f xs ++ hits f ys
  hits-append f [] ys = refl
  hits-append f (x ∷ xs) ys = elim (Option-cases (f x)) [
    | inl e ↦ rw (hits, e) (hits-append f xs ys)
    | inr (v, e) ↦ rw (hits, e) (ap (λ u. (x, v) ∷ u) (hits-append f xs ys))
  ]

  pub hits-none :
      (f : K → Option V) (b : K) (xs : List K) → f b ≡ none → hits f (b ∷ xs) ≡ hits f xs
  hits-none f b xs e = rw (hits, e) refl

  pub hits_cons :
      (f : K → Option V) (b : K) (xs ys : List K)
      → hits f xs ≡ hits f ys
      → hits f (b ∷ xs) ≡ hits f (b ∷ ys)
  hits_cons f b xs ys h = ap (λ u. elim (f b) [ none ↦ u | some v ↦ (b, v) ∷ u ]) h

  pub hits_same :
      (f g : K → Option V) (xs : List K) → All (λ x. f x ≡ g x) xs → hits f xs ≡ hits g xs
  hits_same f g [] h = refl
  hits_same f g (x ∷ xs) h = elim (Option-cases (g x)) [
    | inl e ↦ rw (hits, h.0, e) (hits_same f g xs h.1)
    | inr (v, e) ↦ rw (hits, h.0, e) (ap (λ u. (x, v) ∷ u) (hits_same f g xs h.1))
  ]

All-append_split :
    {A : Type 0} (P : A → Type 0) (xs ys : List A) → All P (xs ++ ys) → All P xs × All P ys
All-append_split P [] ys h = (tt, h)
All-append_split P (x ∷ xs) ys h = let (l, r) = All-append_split P xs ys h.1 in ((h.0, l), r)

module _ {K : Type 0} ⦃keys : Key K⦄ where
  pub IsSorted-append : (xs ys : List K) → IsSorted (xs ++ ys) → IsSorted xs × IsSorted ys
  IsSorted-append [] ys h = (tt, h)
  IsSorted-append (x ∷ xs) ys h =
      let (l, r) = IsSorted-append xs ys h.1 in
      let (a, b) = All-append_split (λ y. x ≺ y) xs ys h.0 in ((a, l), r)

  All-set_insert : (P : K → Type 0) (k : K) (ks : List K) → P k → All P ks → All P (set_insert k ks)
  unfolding set_insert
  All-set_insert P k [] p h = (p, tt)
  All-set_insert P k (x ∷ ks) p h = elim (Ordering-cases (keys.cmp k x)) [
    | inl l ↦ rw (l, set_insert) (p, h)
    | inr (inl e) ↦ rw (e, set_insert) (p, h.1)
    | inr (inr g) ↦ rw (g, set_insert) (h.0, All-set_insert P k ks p h.1)
  ]

  set_insert-IsSorted : (k : K) (ks : List K) → IsSorted ks → IsSorted (set_insert k ks)
  unfolding set_insert
  set_insert-IsSorted k [] h = (tt, tt)
  set_insert-IsSorted k (x ∷ ks) h = elim (Ordering-cases (keys.cmp k x)) [
    | inl l ↦ rw (l, set_insert) ((l, All-imp (λ y q. keys.lt_trans k x y l q) ks h.0), h)
    | inr (inl e) ↦
        rw (e, set_insert) (subst (λ y. IsSorted (y ∷ ks)) (sym (keys.eq_of_cmp k x e)) h)
    | inr (inr g) ↦
        rw (g, set_insert)
          (All-set_insert (λ y. x ≺ y) k ks (keys.lt_of_gt k x g) h.0, set_insert-IsSorted k ks h.1)
  ]

  pub sorted_keys-IsSorted : (ks : List K) → IsSorted (sorted_keys ks)
  unfolding sorted_keys
  sorted_keys-IsSorted [] = tt
  sorted_keys-IsSorted (k ∷ ks) = set_insert-IsSorted k (sorted_keys ks) (sorted_keys-IsSorted ks)

module _ {K C : Type 0} ⦃keys : Key K⦄ ⦃cids : Key C⦄ (node : BranchNode K C) where
  pub with_child-none :
      (b : K) (batch : List K)
      → child b node.keys node.values ≡ none
      → with_child (λ k. k) node (b ∷ batch) ≡ with_child (λ k. k) node batch
  with_child-none b batch e = rw (with_child, e) refl

  pub with_child-some :
      (b : K) (c : C) (batch : List K)
      → child b node.keys node.values ≡ some c
      → with_child (λ k. k) node (b ∷ batch) ≡ b ∷ with_child (λ k. k) node batch
  with_child-some b c batch e = rw (with_child, e) refl

  All-with_child :
      (P : K → Type 0) (batch : List K) → All P batch → All P (with_child (λ k. k) node batch)
  All-with_child P [] h = tt
  All-with_child P (b ∷ batch) h = elim (Option-cases (child b node.keys node.values)) [
    | inl e ↦ rw (with_child, e) (All-with_child P batch h.1)
    | inr (c, e) ↦ rw (with_child, e) (h.0, All-with_child P batch h.1)
  ]

  pub with_child-IsSorted :
      (batch : List K) → IsSorted batch → IsSorted (with_child (λ k. k) node batch)
  with_child-IsSorted [] h = tt
  with_child-IsSorted (b ∷ batch) h = elim (Option-cases (child b node.keys node.values)) [
    | inl e ↦ rw (with_child, e) (with_child-IsSorted batch h.1)
    | inr (c, e) ↦
        rw (with_child, e) (All-with_child (λ y. b ≺ y) batch h.0, with_child-IsSorted batch h.1)
  ]

pub All-child :
    {K C : Type 0} ⦃keys : Key K⦄ (P : C → Type 0) (j : K) (ks : List K) (cs : List C) (c : C)
    → All P cs
    → child j ks cs ≡ some c
    → P c
unfolding child
All-child P j [] cs c h e = cc
All-child P j (k ∷ ks) [] c h e = cc
All-child {C = C} ⦃keys⦄ P j (k ∷ ks) (d ∷ cs) c h e =
    let below : child j ks cs ≡ some c → P c = λ q. All-child P j ks cs c h.1 q in
    elim (Ordering-cases (keys.cmp k j)) [
      | inl l ↦ not_above (child j ks cs) refl (rw (l, child) at e) below
      | inr (inl q) ↦ not_above (child j ks cs) refl (rw (q, child) at e) below
      | inr (inr g) ↦ let none_there : none ≡ some c = rw (g, child) at e in cc
    ]
  where
    not_above :
        (o : Option C)
        → child j ks cs ≡ o
        → (elim o [ none ↦ some d | some c' ↦ some c' ]) ≡ some c
        → (child j ks cs ≡ some c → P c)
        → P c
    not_above none q r below = let same : d ≡ c = cc in subst P same h.0
    not_above (some c') q r below = below (q ∙ r)
