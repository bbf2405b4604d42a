-- ===== src/Prolly/Tree.antt =====
-- defluencer/src/indexing/ordered_trees/prolly/tree.rs: reading the values of a batch of keys, over
-- the blocks of an IPFS node. A stream is the list of what it yields, an error in the place where the
-- source yields one. The fuel bounds the depth of the tree; `none` means that it ran out.
pub mod Reads
pub mod Contents
pub mod Ranges
pub mod Ordered
pub mod Batches
mod Tests
use rust_defluencer.Base.{
  ℕ, zero, suc, List, [], ◌∷◌, ◌++◌, Option, none, some, length, map, Result, ok, err, panic,
}
use rust_defluencer.Base.Key.{Key}
use rust_defluencer.Base.Sets.{set_insert}
use rust_defluencer.Ipfs.{Ipfs, Linked, dag_get}
use rust_defluencer.Prolly.Node.{BranchNode, LeafNode, pairs, into_search_batch}
use rust_defluencer.Prolly.Ipld.{TreeNodes, branch, leaf}
use rust_defluencer.Prolly.Batch.{batches}

-- What a stream yields that cannot be made.
abbrev pub or_failed :
    {A B : Type 0} → Result A → (A → Option (List (Result B))) → Option (List (Result B))
or_failed (ok a) f = f a
or_failed (err e) f = some (err e ∷ [])
or_failed panic f = some (panic ∷ [])

abbrev pub both_streams : {A : Type 0} → Option (List A) → Option (List A) → Option (List A)
both_streams none ys = none
both_streams (some xs) none = none
both_streams (some xs) (some ys) = some (xs ++ ys)

-- `try_flatten`, of the streams in order.
unfoldable pub flatten_all : {A B : Type 0} → (A → Option (List B)) → List A → Option (List B)
flatten_all f [] = some []
flatten_all f (x ∷ xs) = both_streams (f x) (flatten_all f xs)

-- `sort_unstable` and `dedup`
unfoldable pub sorted_keys : {K : Type 0} ⦃o : Key K⦄ → List K → List K
sorted_keys [] = []
sorted_keys (k ∷ ks) = set_insert k (sorted_keys ks)

module _ {K V : Type 0} ⦃keys : Key K⦄ where
  unfoldable pub search_leaf : LeafNode K V → List K → Option (List (Result (K × V)))
  search_leaf node batch =
      or_failed (into_search_batch node batch) (λ found. some (map ok (pairs found)))

module _ {K V C S : Type 0} ⦃keys : Key K⦄ ⦃cids : Key C⦄ (ipfs : Ipfs C S)
    (codec : Linked ipfs.Block (TreeNodes K V C)) where
  -- The tree below a node: `search_branch` and `search_leaf`.
  unfoldable pub search_nodes : ℕ → TreeNodes K V C → List K → S → Option (List (Result (K × V)))
  search_nodes zero nodes batch s = none
  search_nodes (suc fuel) (leaf node) batch s = search_leaf node batch
  search_nodes (suc fuel) (branch node) batch s =
      elim (batches (λ key. key) (suc (length batch)) node batch) [
        | none ↦ none
        | some r ↦ or_failed r (λ shares.
            flatten_all
              (λ share.
                or_failed (dag_get ipfs codec share.0 s)
                  (λ nodes. search_nodes fuel nodes share.1 s))
              shares)
      ]

  -- `batch_get`
  unfoldable pub batch_get : ℕ → C → List K → S → Option (List (Result (K × V)))
  batch_get fuel root keys s =
      or_failed (dag_get ipfs codec root s) (λ nodes. search_nodes fuel nodes (sorted_keys keys) s)

module _ {K V C S : Type 0} (ipfs : Ipfs C S) (codec : Linked ipfs.Block (TreeNodes K V C)) where
  -- All pairs below a node: `stream_branch`, and the pairs of a leaf.
  unfoldable pub stream_nodes : ℕ → TreeNodes K V C → S → Option (List (Result (K × V)))
  stream_nodes zero nodes s = none
  stream_nodes (suc fuel) (leaf node) s = some (map ok (pairs node))
  stream_nodes (suc fuel) (branch node) s =
      flatten_all
        (λ pair. or_failed (dag_get ipfs codec pair.1 s) (λ nodes. stream_nodes fuel nodes s))
        (pairs node)

  -- `stream_pairs`
  unfoldable pub stream_pairs : ℕ → C → S → Option (List (Result (K × V)))
  stream_pairs fuel root s =
      or_failed (dag_get ipfs codec root s) (λ nodes. stream_nodes fuel nodes s)
