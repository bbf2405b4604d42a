-- ===== src/Prolly/Insertion/Lost.antt =====
-- What `batch_insert` does not insert.
use rust_defluencer.Base.{ℕ, suc, ◌≤◌, ◌≡◌, refl, ap, ◌∙◌, List, [], ◌∷◌, some, length, arith, ok}
use rust_defluencer.Base.Key.{Key, ◌≺◌}
use rust_defluencer.Ipfs.{Ipfs, Linked, dag_get}
use rust_defluencer.Prolly.Node.{BranchNode}
use rust_defluencer.Prolly.Node.Pairs.{All}
use rust_defluencer.Prolly.Node.Update.{IsNode}
use rust_defluencer.Prolly.Ipld.{TreeNodes, branch}
use rust_defluencer.Prolly.Batch.{batches}
use rust_defluencer.Prolly.Batch.Shares.{child-above, with_child, Belong, items_of, batches_lem}
use rust_defluencer.Prolly.Insertion.{Chunking, insert_nodes, execute_batch_insert, batch_insert}

module _ {K V C : Type 0} ⦃keys : Key K⦄ ⦃cids : Key C⦄ (node : BranchNode K C) where
  -- All pairs of the batch have keys below all keys of the branch.
  abbrev pub AllBelow : List (K × V) → Type 0
  AllBelow = All (λ kv. All (λ k. kv.0 ≺ k) node.keys)

  with_child-AllBelow :
      (batch : List (K × V)) → AllBelow batch → with_child (λ kv. kv.0) node batch ≡ []
  with_child-AllBelow [] h = refl
  with_child-AllBelow (kv ∷ batch) h =
      rw (with_child, child-above kv.0 node.keys node.values h.0) (with_child-AllBelow batch h.1)

  no_shares :
      (shares : List (C × List (K × V)))
      → All (λ share. (1 ≤ length share.1) × Belong (λ kv. kv.0) node share.0 share.1) shares
      → items_of shares ≡ []
      → shares ≡ []
  no_shares [] h e = refl
  no_shares ((c, []) ∷ shares) h e = absurd (omega (arith, h.0.0))
  no_shares ((c, kv ∷ share) ∷ shares) h e = cc

  batches-AllBelow :
      (batch : List (K × V))
      → IsNode node
      → AllBelow batch
      → batches (λ kv. kv.0) (suc (length batch)) node batch ≡ some (ok [])
  batches-AllBelow batch valid h =
      let (shares, ran, shared) =
        batches_lem (λ kv. kv.0) node valid (suc (length batch)) batch (omega arith) in
      ran
      ∙ ap (λ u. some (ok u)) (no_shares shares shared.1 (shared.0 ∙ with_child-AllBelow batch h))

module _ {K V C S : Type 0} ⦃keys : Key K⦄ ⦃cids : Key C⦄ (ipfs : Ipfs C S)
    (codec : Linked ipfs.Block (TreeNodes K V C)) (chunking : Chunking K V C) where
  insert_nodes-AllBelow :
      (depth fuel : ℕ) (node : BranchNode K C) (batch : List (K × V)) (s : S)
      → IsNode node
      → AllBelow node batch
      → insert_nodes ipfs codec chunking (suc depth) fuel (branch node) batch s
        ≡ insert_nodes ipfs codec chunking (suc depth) fuel (branch node) [] s
  unfolding insert_nodes
  insert_nodes-AllBelow depth fuel node batch s valid h =
      rw (batches-AllBelow node batch valid h, batches-AllBelow {V = V} node [] valid tt) refl

  -- Where the root of the tree is a well-formed branch, and all pairs of the sorted batch have keys
  -- below all of its keys, `batch_insert` does exactly what it does with no pairs at all: the same
  -- root, the same blocks, the same error. The pairs are lost.
  pub batch_insert_lost :
      (in_order : List (K × V) → List (K × V)) (depth levels fuel : ℕ) (root : C)
      (node : BranchNode K C) (batch : List (K × V)) (s : S)
      → in_order [] ≡ []
      → dag_get ipfs codec root s ≡ ok (branch node)
      → IsNode node
      → AllBelow node (in_order batch)
      → batch_insert ipfs codec chunking in_order (suc depth) levels fuel root batch s
        ≡ batch_insert ipfs codec chunking in_order (suc depth) levels fuel root [] s
  unfolding batch_insert execute_batch_insert
  batch_insert_lost in_order depth levels fuel root node batch s e load valid h =
      rw (load, e, insert_nodes-AllBelow depth fuel node (in_order batch) s valid h) refl
