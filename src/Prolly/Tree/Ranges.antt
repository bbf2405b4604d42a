-- ===== src/Prolly/Tree/Ranges.antt =====
-- Trees whose children hold keys in the range that their parent says, and a descent in them.
use Prim.Native.Nat.Ordering.{lt, gt}
use rust_defluencer.Base.{
  ℕ, zero, suc, ◌≡◌, refl, sym, ap, subst, ◌∙◌, inl, inr, false, List, [], ◌∷◌, ◌++◌, Option, none,
  some, Bool-cases, arith, length, ◌≢◌, Result, ok, err, panic,
}
use rust_defluencer.Base.Key.{Key, ◌≺◌, same_key, eq_of_same_key, Ordering-cases}
use rust_defluencer.Base.Sets.{map_get}
use rust_defluencer.Ipfs.{Ipfs, Linked, dag_get}
use rust_defluencer.Prolly.Node.{pairs, zip}
use rust_defluencer.Prolly.Node.Pairs.{All, All-imp, IsSorted, read}
use rust_defluencer.Prolly.Ipld.{TreeNodes, branch, leaf}
use rust_defluencer.Prolly.Batch.Shares.{child}
use rust_defluencer.Prolly.Tree.Reads.{get_one}

module _ {K V C S : Type 0} ⦃keys : Key K⦄ (ipfs : Ipfs C S)
    (codec : Linked ipfs.Block (TreeNodes K V C)) (s : S) where
  abbrev after_load : Result (TreeNodes K V C) → (TreeNodes K V C → List (K × V)) → List (K × V)
  after_load (ok nodes) f = f nodes
  after_load (err e) f = []
  after_load panic f = []

  abbrev pub gather : (C → List (K × V)) → List C → List (K × V)
  gather f [] = []
  gather f (c ∷ cs) = f c ++ gather f cs

  -- The pairs of the leaves of a tree, from the first to the last.
  unfoldable pub contents : ℕ → TreeNodes K V C → List (K × V)
  contents zero nodes = []
  contents (suc depth) (leaf node) = pairs node
  contents (suc depth) (branch node) =
      gather (λ c. after_load (dag_get ipfs codec c s) (contents depth)) node.values

  abbrev pub below : ℕ → C → List (K × V)
  below depth c = after_load (dag_get ipfs codec c s) (contents depth)

  -- Every child has keys that are not below its own key, and below those of the children after it.
  abbrev pub InRange : ℕ → List K → List C → Type 0
  InRange depth [] cs = Unit
  InRange depth (k ∷ ks) [] = Unit
  InRange depth (k ∷ ks) (c ∷ cs) =
      All (λ z. keys.cmp z.0 k ≢ lt) (below depth c)
      × All (λ z. All (λ k'. z.0 ≺ k') ks) (below depth c)
      × InRange depth ks cs

  unfoldable pub IsOrdered : ℕ → TreeNodes K V C → Type 0
  IsOrdered zero nodes = Unit
  IsOrdered (suc depth) (leaf node) = Unit
  IsOrdered (suc depth) (branch node) =
      InRange depth node.keys node.values
      × All
          (λ c.
            (nodes : TreeNodes K V C) → dag_get ipfs codec c s ≡ ok nodes → IsOrdered depth nodes)
          node.values

module _ {V : Type 0} where
  abbrev or_else : Option V → Option V → Option V
  or_else none o = o
  or_else (some v) o = some v

  or_else-none : (o : Option V) → or_else o none ≡ o
  or_else-none none = refl
  or_else-none (some v) = refl

module _ {K V : Type 0} ⦃keys : Key K⦄ where
  map_get-append :
      (key : K) (xs ys : List (K × V))
      → map_get key (xs ++ ys) ≡ or_else (map_get key xs) (map_get key ys)
  unfolding map_get
  map_get-append key [] ys = refl
  map_get-append key (x ∷ xs) ys = elim (Bool-cases (same_key key x.0)) [
    | inl q ↦ rw (q, map_get) refl
    | inr q ↦ rw (q, map_get) (map_get-append key xs ys)
  ]

  map_get-none :
      (key : K) (xs : List (K × V)) → All (λ z. same_key key z.0 ≡ false) xs → map_get key xs ≡ none
  unfolding map_get
  map_get-none key [] h = refl
  map_get-none key (x ∷ xs) h = rw h.0 (map_get-none key xs h.1)

  pub read-zip : (key : K) (ks : List K) (vs : List V) → read key ks vs ≡ map_get key (zip ks vs)
  unfolding read map_get zip
  read-zip key [] vs = refl
  read-zip key (k ∷ ks) [] = refl
  read-zip key (k ∷ ks) (v ∷ vs) = elim (Bool-cases (same_key key k)) [
    | inl q ↦ rw q refl
    | inr q ↦ rw q (read-zip key ks vs)
  ]

module _ {K : Type 0} ⦃keys : Key K⦄ where
  -- Keys on different sides of a third are not the same.
  not_same_below : (key z k : K) → key ≺ k → keys.cmp z k ≢ lt → same_key key z ≡ false
  not_same_below key z k l h = elim (Bool-cases (same_key key z)) [
    | inl q ↦ absurd (h (subst (λ u. u ≺ k) (eq_of_same_key key z q) l))
    | inr q ↦ q
  ]

  not_same_above : (key z k : K) → keys.cmp k key ≢ gt → z ≺ k → same_key key z ≡ false
  not_same_above key z k h l = elim (Bool-cases (same_key key z)) [
    | inl q ↦ absurd (h (keys.gt_of_lt key k (subst (λ u. u ≺ k) (sym (eq_of_same_key key z q)) l)))
    | inr q ↦ q
  ]

module _ {K V C S : Type 0} ⦃keys : Key K⦄ (ipfs : Ipfs C S)
    (codec : Linked ipfs.Block (TreeNodes K V C)) (s : S) (depth : ℕ) (key : K) where
  abbrev all_below : List C → List (K × V)
  all_below cs = gather ipfs codec s (below ipfs codec s depth) cs

  -- No child holds a key that is below all of theirs.
  all_below-none :
      (ks : List K) (cs : List C)
      → length ks ≡ length cs
      → InRange ipfs codec s depth ks cs
      → All (λ k. key ≺ k) ks
      → map_get key (all_below cs) ≡ none
  all_below-none [] [] n h a = unfold map_get in refl
  all_below-none [] (c ∷ cs) n h a = absurd (omega arith)
  all_below-none (k ∷ ks) [] n h a = unfold map_get in refl
  all_below-none (k ∷ ks) (c ∷ cs) n h a =
      map_get-append key (below ipfs codec s depth c) (all_below cs)
      ∙ rw
          (
            map_get-none key (below ipfs codec s depth c)
                (All-imp (λ z l. not_same_below key z.0 k a.0 l) (below ipfs codec s depth c) h.0),
            all_below-none ks cs (omega arith) h.2 a.1,
          )
          refl

  abbrev pub descend : Option C → Option V
  descend none = none
  descend (some c) = elim (dag_get ipfs codec c s) [
    | ok nodes ↦ get_one ipfs codec depth nodes key s
    | err e ↦ none
    | panic ↦ none
  ]

  child_first :
      (k : K) (ks : List K) (cs : List C) (d : C)
      → child key (k ∷ ks) cs ≡ some d
      → keys.cmp k key ≢ gt
  unfolding child
  child_first k ks [] d e g = cc
  child_first k ks (c ∷ cs) d e g = let none_there : none ≡ some d = rw (g, child) at e in cc

  none_before :
      (ks : List K) (cs : List C) (d : C) (zs : List (K × V))
      → child key ks cs ≡ some d
      → All (λ z. All (λ k'. z.0 ≺ k') ks) zs
      → map_get key zs ≡ none
  unfolding child
  none_before [] cs d zs e h = cc
  none_before (k ∷ ks) cs d zs e h =
      map_get-none key zs
        (All-imp (λ z a. not_same_above key z.0 k (child_first k ks cs d e) a.0) zs h)

  one_more :
      (k : K) (ks : List K) (c : C) (cs : List C) (o : Option C)
      → child key ks cs ≡ o
      → All (λ z. All (λ k'. z.0 ≺ k') ks) (below ipfs codec s depth c)
      → descend (some c) ≡ map_get key (below ipfs codec s depth c)
      → descend (child key ks cs) ≡ map_get key (all_below cs)
      → descend (elim o [ none ↦ some c | some d ↦ some d ]) ≡ map_get key (all_below (c ∷ cs))
  one_more k ks c cs none e before here rest =
      here
      ∙ sym (
          map_get-append key (below ipfs codec s depth c) (all_below cs)
          ∙ ap (λ u. or_else (map_get key (below ipfs codec s depth c)) u)
              (sym rest ∙ ap (λ u. descend u) e)
          ∙ or_else-none (map_get key (below ipfs codec s depth c)))
  one_more k ks c cs (some d) e before here rest =
      sym (ap (λ u. descend u) e)
      ∙ rest
      ∙ sym (
          map_get-append key (below ipfs codec s depth c) (all_below cs)
          ∙ ap (λ u. or_else u (map_get key (all_below cs))) (none_before ks cs d _ e before))

  pub descend-child :
      (ks : List K) (cs : List C)
      → length ks ≡ length cs
      → IsSorted ks
      → InRange ipfs codec s depth ks cs
      → All (λ c. descend (some c) ≡ map_get key (below ipfs codec s depth c)) cs
      → descend (child key ks cs) ≡ map_get key (all_below cs)
  unfolding child
  descend-child [] [] n o h ih = unfold map_get in refl
  descend-child [] (c ∷ cs) n o h ih = absurd (omega arith)
  descend-child (k ∷ ks) [] n o h ih = absurd (omega arith)
  descend-child (k ∷ ks) (c ∷ cs) n o h ih = elim (Ordering-cases (keys.cmp k key)) [
    | inl l ↦
        rw (l, child)
          (one_more k ks c cs (child key ks cs) refl h.1 ih.0
            (descend-child ks cs (omega arith) o.1 h.2 ih.1))
    | inr (inl e) ↦
        rw (e, child)
          (one_more k ks c cs (child key ks cs) refl h.1 ih.0
            (descend-child ks cs (omega arith) o.1 h.2 ih.1))
    | inr (inr g) ↦
        let l : key ≺ k = keys.lt_of_gt k key g in
        rw (g, child)
          (sym (
            all_below-none (k ∷ ks) (c ∷ cs) n h
              (l, All-imp (λ x q. keys.lt_trans key k x l q) ks o.0)))
  ]
