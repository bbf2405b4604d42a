-- ===== src/Prolly/Removal/Emptied.antt =====
-- What `batch_remove` does when it leaves no key.
use rust_defluencer.Base.{
  ℕ, suc, ◌≡◌, refl, true, Bool-cases, inl, inr, List, [], ◌∷◌, some, if◌then◌else◌, ltb, length,
  arith, ok, panic,
}
use rust_defluencer.Base.Key.{Key}
use rust_defluencer.Base.Sets.{set_insert}
use rust_defluencer.Ipfs.{Ipfs, Linked, dag_put, dag_get}
use rust_defluencer.Prolly.Node.{
  LeafNode, empty_node, zip, binary_search, erase_at, holds, remove_at_place, remove_batch,
}
use rust_defluencer.Prolly.Node.Pairs.{IsSorted}
use rust_defluencer.Prolly.Node.Update.{IsNode}
use rust_defluencer.Prolly.Ipld.{TreeNodes, leaf}
use rust_defluencer.Prolly.Split.{split, split_nodes, overflows, cut}
use rust_defluencer.Prolly.Tree.{sorted_keys}
use rust_defluencer.Prolly.Insertion.{Chunking, split_leaf, put_nodes, put_all, first_keys}
use rust_defluencer.Prolly.Removal.{
  merge_onto, merge_all, get_all, remove_nodes, execute_batch_remove, removed_root, batch_remove,
}

ltb-suc : (n : ℕ) → ltb 0 (suc n) ≡ true
ltb-suc n = ground arith

module _ {K : Type 0} ⦃keys : Key K⦄ where
  sorted_keys-IsSorted : (ks : List K) → IsSorted ks → sorted_keys ks ≡ ks
  unfolding sorted_keys set_insert
  sorted_keys-IsSorted [] h = refl
  sorted_keys-IsSorted (k ∷ []) h = refl
  sorted_keys-IsSorted (k ∷ x ∷ ks) h =
      rw (sorted_keys-IsSorted (x ∷ ks) h.1, set_insert, h.0.0) refl

  remove_all :
      {V : Type 0} (ks : List K) (vs : List V)
      → length ks ≡ length vs
      → remove_batch (record { keys = ks; values = vs }) ks ≡ ok empty_node
  unfolding remove_batch remove_at_place binary_search erase_at holds
  remove_all [] [] h = refl
  remove_all [] (v ∷ vs) h = absurd (omega (arith, h))
  remove_all (k ∷ ks) [] h = absurd (omega (arith, h))
  remove_all (k ∷ ks) (v ∷ vs) h =
      rw (keys.cmp_refl k, remove_batch, binary_search, ltb-suc (length vs))
        (remove_all ks vs (omega (arith, h)))

module _ {K V C S : Type 0} ⦃keys : Key K⦄ ⦃cids : Key C⦄ (ipfs : Ipfs C S)
    (codec : Linked ipfs.Block (TreeNodes K V C)) (chunking : Chunking K V C) where
  -- `batch_remove` of all keys of a well-formed leaf that is the root, where the empty leaf can be
  -- encoded: it panics where the encoding is shorter than the minimal size, and stores the empty
  -- leaf as the new root where it is not.
  pub batch_remove_all :
      (depth fuel : ℕ) (root : C) (node : LeafNode K V) (bytes : ℕ) (s : S)
      → IsNode node
      → dag_get ipfs codec root s ≡ ok (leaf node)
      → chunking.leaf_size empty_node ≡ ok bytes
      → batch_remove ipfs codec chunking (suc depth) (suc fuel) root node.keys s ≡ (
          if ltb bytes chunking.min_size
          then some (panic, s)
          else some (dag_put ipfs codec (leaf empty_node) s))
  unfolding batch_remove execute_batch_remove get_all merge_all merge_onto remove_nodes split_leaf
      split split_nodes cut put_nodes put_all first_keys removed_root dag_put zip overflows
  batch_remove_all depth fuel root node bytes s valid loads size =
      rw
        (
          sorted_keys-IsSorted node.keys valid.sorted,
          loads,
          remove_all node.keys node.values valid.paired,
          size,
        )
        (elim (Bool-cases (ltb bytes chunking.min_size)) [
          | inl e ↦ rw (e) refl
          | inr e ↦ rw (e) refl
        ])
