-- ===== src/Prolly/Insertion.antt =====
-- defluencer/src/indexing/ordered_trees/prolly/tree.rs: `batch_insert`. Requests that the source joins
-- are made one after the other here, in the same order. `chunking` is what `split` takes from the
-- configuration and from the encodings, and `in_order` is `sort_unstable_by` and `dedup_by` of the
-- standard library, which say of the pairs of one key only that one of them stays.
pub mod Lost
pub mod Large
mod Tests
use rust_defluencer.Base.{
  ℕ, zero, suc, List, [], ◌∷◌, ◌++◌, Option, none, some, Bool, length, map, Result, ok, err, panic,
  and_then, Action, pure, lift, read, ◌>>=◌,
}
use rust_defluencer.Base.Key.{Key}
use rust_defluencer.Ipfs.{Ipfs, Linked, dag_put, dag_get}
use rust_defluencer.Prolly.Node.{TreeNode, BranchNode, LeafNode, empty_node, insert, zip}
use rust_defluencer.Prolly.Ipld.{TreeNodes, branch, leaf}
use rust_defluencer.Prolly.Split.{and_run, split}
use rust_defluencer.Prolly.Batch.{batches}

pub record Chunking (K V C : Type 0) : Type 0 where
  pub leaf_size : LeafNode K V → Result ℕ
  pub branch_size : BranchNode K C → Result ℕ
  pub leaf_boundary : K → V → Result Bool
  pub branch_boundary : K → C → Result Bool
  pub scale : ℕ → ℕ → ℕ → ℕ
  pub min_size : ℕ
  pub max_size : ℕ

-- An action with fuel; `none` where it runs out.
abbrev pub Run : Type 0 → Type 0 → Type 0
Run S A = S → Option (Result A × S)

abbrev pub run : {S A : Type 0} → Action S A → Run S A
run m s = some (m s)

-- A computation with fuel that does not touch the state.
abbrev pub compute : {S A : Type 0} → Option (Result A) → Run S A
compute none s = none
compute (some r) s = some (r, s)

abbrev resume_run : {S A B : Type 0} → Option (Result A × S) → (A → Run S B) → Option (Result B × S)
resume_run none f = none
resume_run (some (ok a, s)) f = f a s
resume_run (some (err e, s)) f = some (err e, s)
resume_run (some (panic, s)) f = some (panic, s)

infixl 5 ◌>=>◌
abbrev pub ◌>=>◌ : {S A B : Type 0} → Run S A → (A → Run S B) → Run S B
◌>=>◌ m f s = resume_run (m s) f

abbrev pub first_of : {K : Type 0} → List K → Result K
first_of [] = panic
first_of (k ∷ ks) = ok k

module _ {K V C : Type 0} where
  -- `node.keys[0]`
  abbrev pub first_key : TreeNodes K V C → Result K
  first_key (branch node) = first_of node.keys
  first_key (leaf node) = first_of node.keys

  unfoldable pub first_keys : List (TreeNodes K V C) → Result (List K)
  first_keys [] = ok []
  first_keys (n ∷ ns) = and_then (first_key n) (λ k. and_then (first_keys ns) (λ ks. ok (k ∷ ks)))

module _ {K V C S : Type 0} ⦃keys : Key K⦄ ⦃cids : Key C⦄ (ipfs : Ipfs C S)
    (codec : Linked ipfs.Block (TreeNodes K V C)) (chunking : Chunking K V C) where
  unfoldable pub put_all : List (TreeNodes K V C) → Action S (List C)
  put_all [] = pure []
  put_all (n ∷ ns) = dag_put ipfs codec n >>= λ c. put_all ns >>= λ cs. pure (c ∷ cs)

  -- The nodes are stored: the first key of each, with the link to it.
  unfoldable pub put_nodes : List (TreeNodes K V C) → Action S (List (K × C))
  put_nodes nodes = lift (first_keys nodes) >>= λ ks. put_all nodes >>= λ links. pure (zip ks links)

  unfoldable pub split_leaf : ℕ → LeafNode K V → Option (Result (List (TreeNodes K V C)))
  split_leaf fuel node =
      and_run
        (split chunking.leaf_boundary chunking.leaf_size chunking.scale chunking.min_size
          chunking.max_size fuel node)
        (λ nodes. some (ok (map leaf nodes)))

  unfoldable pub split_branch : ℕ → BranchNode K C → Option (Result (List (TreeNodes K V C)))
  split_branch fuel node =
      and_run
        (split chunking.branch_boundary chunking.branch_size chunking.scale chunking.min_size
          chunking.max_size fuel node)
        (λ nodes. some (ok (map branch nodes)))

  -- The calls for the shares of a batch, with what they return in one list.
  unfoldable pub insert_shares :
      (C → List (K × V) → Run S (List (K × C))) → List (C × List (K × V)) → Run S (List (K × C))
  insert_shares f [] = run (pure [])
  insert_shares f ((link, batch) ∷ shares) =
      f link batch >=> λ xs. insert_shares f shares >=> λ ys. run (pure (xs ++ ys))

  -- `execute_batch_insert`, from where the node is loaded. `depth` bounds the levels, `fuel` is that of
  -- `split`.
  unfoldable pub insert_nodes :
      (depth fuel : ℕ) → TreeNodes K V C → List (K × V) → Run S (List (K × C))
  insert_nodes zero fuel nodes batch = compute none
  insert_nodes (suc depth) fuel (leaf node) batch = compute (some (insert node batch)) >=> λ node'.
      compute (split_leaf fuel node') >=> λ nodes. run (put_nodes nodes)
  insert_nodes (suc depth) fuel (branch node) batch =
      compute (batches (λ kv. kv.0) (suc (length batch)) node batch) >=> λ shares.
      insert_shares
        (λ link share.
          run (read (dag_get ipfs codec link)) >=> λ nodes. insert_nodes depth fuel nodes share)
        shares
      >=> λ key_links. compute (some (insert node key_links)) >=> λ node'.
          compute (split_branch fuel node') >=> λ nodes. run (put_nodes nodes)

  -- `execute_batch_insert`
  unfoldable pub execute_batch_insert : (depth fuel : ℕ) → C → List (K × V) → Run S (List (K × C))
  execute_batch_insert depth fuel link batch =
      run (read (dag_get ipfs codec link)) >=> λ nodes. insert_nodes depth fuel nodes batch

  -- The loop that puts branches on top until there is one root, of at most `levels` levels, and
  -- `key_links[0].1`.
  unfoldable pub raise_root : (levels fuel : ℕ) → List (K × C) → Run S C
  raise_root zero fuel key_links = compute none
  raise_root (suc levels) fuel [] = run (lift panic)
  raise_root (suc levels) fuel ((k, c) ∷ []) = run (pure c)
  raise_root (suc levels) fuel (x ∷ y ∷ key_links) =
      compute (some (insert empty_node (x ∷ y ∷ key_links))) >=> λ node.
      compute (split_branch fuel node) >=> λ nodes.
      run (put_nodes nodes) >=> λ links. raise_root levels fuel links

  -- `batch_insert`
  unfoldable pub batch_insert :
      (List (K × V) → List (K × V)) → (depth levels fuel : ℕ) → C → List (K × V) → Run S C
  batch_insert in_order depth levels fuel root key_values =
      execute_batch_insert depth fuel root (in_order key_values) >=> λ key_links.
      raise_root levels fuel key_links
