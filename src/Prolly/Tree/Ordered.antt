-- ===== src/Prolly/Tree/Ordered.antt =====
-- The order of the pairs of a tree.
use Prim.Native.Nat.Ordering.{lt}
use rust_defluencer.Base.{ℕ, zero, suc, ◌≡◌, inl, inr, List, [], ◌∷◌, ◌++◌, arith, length, ◌≢◌, ok}
use rust_defluencer.Base.Key.{Key, ◌≺◌, Ordering-cases}
use rust_defluencer.Ipfs.{Ipfs, Linked, dag_get}
use rust_defluencer.Prolly.Node.{pairs, zip}
use rust_defluencer.Prolly.Node.Pairs.{All, All-imp, All-append, IsSorted}
use rust_defluencer.Prolly.Ipld.{TreeNodes, branch, leaf}
use rust_defluencer.Prolly.Tree.Ranges.{gather, contents, below, InRange, IsOrdered}
use rust_defluencer.Prolly.Tree.Reads.{IsTree}

module _ {K : Type 0} ⦃keys : Key K⦄ where
  above_bound : (a k b : K) → a ≺ k → keys.cmp b k ≢ lt → a ≺ b
  above_bound a k b l h = elim (Ordering-cases (keys.cmp b k)) [
    | inl e ↦ absurd (h e)
    | inr (inl e) ↦ rw (keys.eq_of_cmp b k e) l
    | inr (inr g) ↦ keys.lt_trans a k b l (keys.lt_of_gt b k g)
  ]

module _ {K V : Type 0} ⦃keys : Key K⦄ where
  -- Each key is below all that come after it: none comes twice.
  abbrev pub Increasing : List (K × V) → Type 0
  Increasing [] = Unit
  Increasing (z ∷ zs) = All (λ w. z.0 ≺ w.0) zs × Increasing zs

  append-Increasing :
      (xs ys : List (K × V))
      → Increasing xs
      → Increasing ys
      → All (λ z. All (λ w. z.0 ≺ w.0) ys) xs
      → Increasing (xs ++ ys)
  append-Increasing [] ys p q h = q
  append-Increasing (x ∷ xs) ys p q h =
      (All-append (λ w. x.0 ≺ w.0) xs ys p.0 h.0, append-Increasing xs ys p.1 q h.1)

  zip-above :
      (k : K) (ks : List K) (vs : List V) → All (λ x. k ≺ x) ks → All (λ w. k ≺ w.0) (zip ks vs)
  unfolding zip
  zip-above k [] vs h = tt
  zip-above k (x ∷ ks) [] h = tt
  zip-above k (x ∷ ks) (v ∷ vs) h = (h.0, zip-above k ks vs h.1)

  zip-Increasing : (ks : List K) (vs : List V) → IsSorted ks → Increasing (zip ks vs)
  unfolding zip
  zip-Increasing [] vs h = tt
  zip-Increasing (k ∷ ks) [] h = tt
  zip-Increasing (k ∷ ks) (v ∷ vs) h = (zip-above k ks vs h.0, zip-Increasing ks vs h.1)

module _ {K V C S : Type 0} ⦃keys : Key K⦄ (ipfs : Ipfs C S)
    (codec : Linked ipfs.Block (TreeNodes K V C)) (s : S) (depth : ℕ) where
  gather-above :
      (a : K) (ks : List K) (cs : List C)
      → length ks ≡ length cs
      → InRange ipfs codec s depth ks cs
      → All (λ k. a ≺ k) ks
      → All (λ w. a ≺ w.0) (gather ipfs codec s (below ipfs codec s depth) cs)
  gather-above a [] [] n h l = tt
  gather-above a [] (c ∷ cs) n h l = absurd (omega arith)
  gather-above a (k ∷ ks) [] n h l = tt
  gather-above a (k ∷ ks) (c ∷ cs) n h l =
      All-append (λ w. a ≺ w.0) (below ipfs codec s depth c)
        (gather ipfs codec s (below ipfs codec s depth) cs)
        (All-imp (λ z q. above_bound a k z.0 l.0 q) (below ipfs codec s depth c) h.0)
        (gather-above a ks cs (omega arith) h.2 l.1)

  gather-Increasing :
      (ks : List K) (cs : List C)
      → length ks ≡ length cs
      → InRange ipfs codec s depth ks cs
      → All (λ c. Increasing (below ipfs codec s depth c)) cs
      → Increasing (gather ipfs codec s (below ipfs codec s depth) cs)
  gather-Increasing [] [] n h ih = tt
  gather-Increasing [] (c ∷ cs) n h ih = absurd (omega arith)
  gather-Increasing (k ∷ ks) [] n h ih = tt
  gather-Increasing (k ∷ ks) (c ∷ cs) n h ih =
      append-Increasing (below ipfs codec s depth c)
        (gather ipfs codec s (below ipfs codec s depth) cs) ih.0
        (gather-Increasing ks cs (omega arith) h.2 ih.1)
        (All-imp (λ z q. gather-above z.0 ks cs (omega arith) h.2 q) (below ipfs codec s depth c)
          h.1)

  -- What holds of the children whose blocks are there holds of what is read through the links.
  below-Increasing :
      (cs : List C)
      → ((nodes : TreeNodes K V C)
          → IsTree ipfs codec depth nodes s
          → IsOrdered ipfs codec s depth nodes
          → Increasing (contents ipfs codec s depth nodes))
      → All
          (λ c.
            (nodes : TreeNodes K V C) × (dag_get ipfs codec c s ≡ ok nodes)
            × IsTree ipfs codec depth nodes s)
          cs
      → All
          (λ c.
            (nodes : TreeNodes K V C)
            → dag_get ipfs codec c s ≡ ok nodes
            → IsOrdered ipfs codec s depth nodes)
          cs
      → All (λ c. Increasing (below ipfs codec s depth c)) cs
  below-Increasing [] ih t o = tt
  below-Increasing (c ∷ cs) ih t o =
      let (nodes, load, tree) = t.0 in
      (rw load (ih nodes tree (o.0 nodes load)), below-Increasing cs ih t.1 o.1)

-- The keys of an ordered tree are read in their order, each once.
pub contents-Increasing :
    {K V C S : Type 0} ⦃keys : Key K⦄ (ipfs : Ipfs C S)
    (codec : Linked ipfs.Block (TreeNodes K V C)) (s : S) (depth : ℕ) (nodes : TreeNodes K V C)
    → IsTree ipfs codec depth nodes s
    → IsOrdered ipfs codec s depth nodes
    → Increasing (contents ipfs codec s depth nodes)
unfolding IsTree IsOrdered contents
contents-Increasing ipfs codec s zero nodes t o = absurd t
contents-Increasing ipfs codec s (suc depth) (leaf node) t o =
    unfold pairs in zip-Increasing node.keys node.values t.sorted
contents-Increasing ipfs codec s (suc depth) (branch node) t o =
    gather-Increasing ipfs codec s depth node.keys node.values t.0.paired o.0 (
      below-Increasing ipfs codec s depth node.values
        (λ nodes t o. contents-Increasing ipfs codec s depth nodes t o) t.1 o.1)
