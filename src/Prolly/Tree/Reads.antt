-- ===== src/Prolly/Tree/Reads.antt =====
-- What `batch_get` yields: what a descent for each key of the batch finds.
use rust_defluencer.Prolly.Tree.Batches.{
  hits-append, hits-none, hits_cons, hits_same, IsSorted-append, sorted_keys-IsSorted,
  with_child-none, with_child-some, with_child-IsSorted, All-child,
}
use rust_defluencer.Base.{
  ℕ, zero, suc, ◌≤◌, ◌≡◌, refl, sym, ap, subst, ◌∙◌, inl, inr, List, [], ◌∷◌, Option, none, some,
  Option-cases, arith, length, map, map-append, Result, ok, err, panic,
}
use rust_defluencer.Base.Key.{Key}
use rust_defluencer.Ipfs.{Ipfs, Linked, dag_get}
use rust_defluencer.Prolly.Node.{BranchNode}
use rust_defluencer.Prolly.Node.Pairs.{All, All-imp, IsSorted}
use rust_defluencer.Prolly.Node.Update.{IsNode, lookup}
use rust_defluencer.Prolly.Node.Selection.{into_search_batch_lem}
use rust_defluencer.Prolly.Node.Swaps.{hits}
use rust_defluencer.Prolly.Ipld.{TreeNodes, branch, leaf}
use rust_defluencer.Prolly.Batch.Shares.{child, with_child, Belong, items_of, batches_lem}
use rust_defluencer.Prolly.Tree.{
  or_failed, flatten_all, sorted_keys, search_leaf, search_nodes, batch_get,
}

module _ {K V C S : Type 0} ⦃keys : Key K⦄ (ipfs : Ipfs C S)
    (codec : Linked ipfs.Block (TreeNodes K V C)) where
  -- One key, down the tree: at a branch to the child of the last key that is not above it.
  unfoldable pub get_one : ℕ → TreeNodes K V C → K → S → Option V
  get_one zero nodes key s = none
  get_one (suc depth) (leaf node) key s = lookup key node
  get_one (suc depth) (branch node) key s = elim (child key node.keys node.values) [
    | none ↦ none
    | some c ↦ elim (dag_get ipfs codec c s) [
      | ok nodes ↦ get_one depth nodes key s
      | err e ↦ none
      | panic ↦ none
    ]
  ]

  -- All blocks of a tree of at most `depth` levels are there, and its nodes are well formed.
  unfoldable pub IsTree : ℕ → TreeNodes K V C → S → Type 0
  IsTree zero nodes s = ⊥
  IsTree (suc depth) (leaf node) s = IsNode node
  IsTree (suc depth) (branch node) s =
      IsNode node
      × All
          (λ c.
            (nodes : TreeNodes K V C) × (dag_get ipfs codec c s ≡ ok nodes) × IsTree depth nodes s)
          node.values

module _ {K V C S : Type 0} ⦃keys : Key K⦄ ⦃cids : Key C⦄ (ipfs : Ipfs C S)
    (codec : Linked ipfs.Block (TreeNodes K V C)) (s : S) where
  -- What a share yields where its child is read.
  abbrev read_share : ℕ → C × List K → Option (List (Result (K × V)))
  read_share depth share =
      or_failed (dag_get ipfs codec share.0 s)
        (λ nodes. search_nodes ipfs codec depth nodes share.1 s)

  abbrev Found : ℕ → TreeNodes K V C → List K → Type 0
  Found depth nodes batch =
      search_nodes ipfs codec depth nodes batch s
      ≡ some (map ok (hits (λ b. get_one ipfs codec depth nodes b s) batch))

  module _ (depth : ℕ) (node : BranchNode K C)
      (tree : IsTree ipfs codec (suc depth) (branch node) s)
      (below : (nodes : TreeNodes K V C) (batch : List K)
        → IsTree ipfs codec depth nodes s
        → IsSorted batch
        → Found depth nodes batch) where
    abbrev here : K → Option V
    here b = get_one ipfs codec (suc depth) (branch node) b s

    read_share-Found :
        (c : C) (batch : List K)
        → 1 ≤ length batch
        → Belong (λ k. k) node c batch
        → IsSorted batch
        → read_share depth (c, batch) ≡ some (map ok (hits here batch))
    unfolding IsTree get_one
    read_share-Found c [] l h sorted = absurd (omega arith)
    read_share-Found c (b ∷ batch) l h sorted =
        let (nodes, load, child_tree) =
          All-child
            (λ c.
              (nodes : TreeNodes K V C) × (dag_get ipfs codec c s ≡ ok nodes)
              × IsTree ipfs codec depth nodes s)
            b node.keys node.values c tree.1 h.0 in
        rw (load, or_failed)
          (below nodes (b ∷ batch) child_tree sorted
            ∙ ap (λ u. some (map ok u))
                (hits_same _ here (b ∷ batch)
                  (All-imp (λ k e. descends k nodes e load) (b ∷ batch) h)))
      where
        descends :
            (k : K) (nodes : TreeNodes K V C)
            → child k node.keys node.values ≡ some c
            → dag_get ipfs codec c s ≡ ok nodes
            → get_one ipfs codec depth nodes k s ≡ here k
        descends k nodes e load = rw (get_one, e, load) refl

    shares-Found :
        (shares : List (C × List K))
        → All (λ share. (1 ≤ length share.1) × Belong (λ k. k) node share.0 share.1) shares
        → IsSorted (items_of shares)
        → flatten_all (read_share depth) shares ≡ some (map ok (hits here (items_of shares)))
    unfolding flatten_all IsTree
    shares-Found [] h sorted = refl
    shares-Found ((c, batch) ∷ shares) h sorted =
        let rest = items_of shares in
        let (l, r) = IsSorted-append batch rest sorted in
        rw
          (
            read_share-Found c batch h.0.0 h.0.1 l,
            shares-Found shares h.1 r,
            hits-append here batch rest,
            map-append (λ (z : K × V). ok z) (hits here batch) (hits here rest),
          )
          refl

    hits-with_child :
        (batch : List K) → hits here (with_child (λ k. k) node batch) ≡ hits here batch
    unfolding get_one
    hits-with_child [] = refl
    hits-with_child (b ∷ batch) = elim (Option-cases (child b node.keys node.values)) [
      | inl e ↦
          ap (λ u. hits here u) (with_child-none node b batch e)
          ∙ hits-with_child batch
          ∙ sym (hits-none here b batch (rw (get_one, e) refl))
      | inr (c, e) ↦
          ap (λ u. hits here u) (with_child-some node b c batch e)
          ∙ hits_cons here b _ _ (hits-with_child batch)
    ]

    branch-Found : (batch : List K) → IsSorted batch → Found (suc depth) (branch node) batch
    unfolding search_nodes IsTree
    branch-Found batch sorted =
        let (shares, ran, shared) =
          batches_lem (λ k. k) node tree.0 (suc (length batch)) batch (omega arith) in
        let in_order = subst IsSorted (sym shared.0) (with_child-IsSorted node batch sorted) in
        rw (search_nodes, ran, or_failed)
          (shares-Found shares shared.1 in_order
            ∙ ap (λ u. some (map ok u)) (ap (λ u. hits here u) shared.0 ∙ hits-with_child batch))

  nodes-Found :
      (depth : ℕ) (nodes : TreeNodes K V C) (batch : List K)
      → IsTree ipfs codec depth nodes s
      → IsSorted batch
      → Found depth nodes batch
  unfolding IsTree
  nodes-Found zero nodes batch tree sorted = absurd tree
  nodes-Found (suc depth) (leaf node) batch tree sorted =
      unfold search_nodes search_leaf get_one in
      let (found, ran, same) = into_search_batch_lem node batch tree sorted in
      rw (ran, or_failed, same) refl
  nodes-Found (suc depth) (branch node) batch tree sorted =
      branch-Found depth node tree (λ nodes batch t o. nodes-Found depth nodes batch t o) batch
        sorted

-- Where the root is loaded and is that of a tree of at most `depth` levels, `batch_get` with fuel for
-- its levels ends and yields no error. It yields the keys asked for that a descent for the single key
-- finds, each once and in order, with the value that the descent finds.
pub batch_get_lem :
    {K V C S : Type 0} ⦃keys : Key K⦄ ⦃cids : Key C⦄ (ipfs : Ipfs C S)
    (codec : Linked ipfs.Block (TreeNodes K V C)) (depth : ℕ) (root : C) (nodes : TreeNodes K V C)
    (batch : List K) (s : S)
    → dag_get ipfs codec root s ≡ ok nodes
    → IsTree ipfs codec depth nodes s
    → batch_get ipfs codec depth root batch s
      ≡ some (map ok (hits (λ key. get_one ipfs codec depth nodes key s) (sorted_keys batch)))
unfolding batch_get
batch_get_lem ipfs codec depth root nodes batch s load tree =
    rw (load, or_failed)
      (nodes-Found ipfs codec s depth nodes (sorted_keys batch) tree (sorted_keys-IsSorted batch))
