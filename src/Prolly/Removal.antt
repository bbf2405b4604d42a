-- ===== src/Prolly/Removal.antt =====
-- defluencer/src/indexing/ordered_trees/prolly/tree.rs: `batch_remove`. Requests that the source joins
-- are made one after the other here, in the same order.
pub mod Emptied
mod Tests
use rust_defluencer.Base.{
  ℕ, zero, suc, List, [], ◌∷◌, ◌++◌, none, some, length, Result, ok, panic, and_then, Action, pure,
  lift, read, ◌>>=◌,
}
use rust_defluencer.Base.Key.{Key}
use rust_defluencer.Ipfs.{Ipfs, Linked, dag_put, dag_get}
use rust_defluencer.Prolly.Node.{empty_node, insert, merge, remove_batch}
use rust_defluencer.Prolly.Ipld.{TreeNodes, branch, leaf}
use rust_defluencer.Prolly.Batch.Remove.{removals}
use rust_defluencer.Prolly.Tree.{sorted_keys}
use rust_defluencer.Prolly.Insertion.{
  Chunking, Run, run, compute, ◌>=>◌, split_leaf, split_branch, put_nodes,
}

module _ {K V C : Type 0} ⦃keys : Key K⦄ where
  -- The closure of `reduce`.
  unfoldable pub merge_two : TreeNodes K V C → TreeNodes K V C → Result (TreeNodes K V C)
  merge_two (branch node) (branch other) = and_then (merge node other) (λ n. ok (branch n))
  merge_two (branch node) (leaf other) = panic
  merge_two (leaf node) (branch other) = panic
  merge_two (leaf node) (leaf other) = and_then (merge node other) (λ n. ok (leaf n))

  unfoldable pub merge_onto : TreeNodes K V C → List (TreeNodes K V C) → Result (TreeNodes K V C)
  merge_onto node [] = ok node
  merge_onto node (other ∷ others) =
      and_then (merge_two node other) (λ node'. merge_onto node' others)

  -- `nodes.into_iter().reduce(..).expect(..)`
  unfoldable pub merge_all : List (TreeNodes K V C) → Result (TreeNodes K V C)
  merge_all [] = panic
  merge_all (node ∷ nodes) = merge_onto node nodes

module _ {K V C S : Type 0} ⦃keys : Key K⦄ ⦃cids : Key C⦄ (ipfs : Ipfs C S)
    (codec : Linked ipfs.Block (TreeNodes K V C)) (chunking : Chunking K V C) where
  unfoldable pub get_all : List C → Action S (List (TreeNodes K V C))
  get_all [] = pure []
  get_all (link ∷ links) =
      read (dag_get ipfs codec link) >>= λ node. get_all links >>= λ nodes. pure (node ∷ nodes)

  -- The calls for the shares of a batch, with what they return in one list.
  unfoldable pub remove_shares :
      (List C → List K → Run S (List (K × C))) → List (List C × List K) → Run S (List (K × C))
  remove_shares f [] = run (pure [])
  remove_shares f ((links, batch) ∷ shares) =
      f links batch >=> λ xs. remove_shares f shares >=> λ ys. run (pure (xs ++ ys))

  -- `execute_batch_remove`, from where the nodes are one. `depth` bounds the levels, `fuel` is that
  -- of `split`.
  unfoldable pub remove_nodes : (depth fuel : ℕ) → TreeNodes K V C → List K → Run S (List (K × C))
  remove_nodes zero fuel nodes batch = compute none
  remove_nodes (suc depth) fuel (leaf node) batch =
      compute (some (remove_batch node batch)) >=> λ node'.
      compute (split_leaf ipfs codec chunking fuel node') >=> λ nodes.
      run (put_nodes ipfs codec chunking nodes)
  remove_nodes (suc depth) fuel (branch node) batch =
      compute (removals (suc (length batch)) node batch) >=> λ shares.
      remove_shares
        (λ links share. run (get_all links) >=> λ nodes.
          compute (some (merge_all nodes)) >=> λ merged. remove_nodes depth fuel merged share)
        shares.0
      >=> λ key_links. compute (some (insert shares.1 key_links)) >=> λ node'.
          compute (split_branch ipfs codec chunking fuel node') >=> λ nodes.
          run (put_nodes ipfs codec chunking nodes)

  -- `execute_batch_remove`
  unfoldable pub execute_batch_remove : (depth fuel : ℕ) → List C → List K → Run S (List (K × C))
  execute_batch_remove depth fuel links batch = run (get_all links) >=> λ nodes.
      compute (some (merge_all nodes)) >=> λ merged. remove_nodes depth fuel merged batch

  -- The new root, for the first keys and the links of the nodes that are left.
  unfoldable pub removed_root : List (K × C) → Action S C
  removed_root [] = dag_put ipfs codec (leaf empty_node)
  removed_root ((k, c) ∷ []) = pure c
  removed_root (x ∷ y ∷ key_links) =
      lift (insert empty_node (x ∷ y ∷ key_links)) >>= λ node. dag_put ipfs codec (branch node)

  -- `batch_remove`
  unfoldable pub batch_remove : (depth fuel : ℕ) → C → List K → Run S C
  batch_remove depth fuel root batch =
      execute_batch_remove depth fuel (root ∷ []) (sorted_keys batch) >=> λ key_links.
      run (removed_root key_links)
