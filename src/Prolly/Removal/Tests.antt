-- ===== src/Prolly/Removal/Tests.antt =====
-- Removals from a tree of three leaves, on an IPFS node in memory: in one leaf, of a leaf's first key,
-- which merges it with the leaf before, and of all keys of a leaf that is the root.
use rust_defluencer.Base.{ℕ, ◌≡◌, refl, false, List, [], ◌∷◌, some, if◌then◌else◌, ltb, ok, panic}
use rust_defluencer.Base.Key.{nat_key}
use rust_defluencer.Base.Sets.{set_insert}
use rust_defluencer.Ipfs.{Linked, dag_put, dag_get}
use rust_defluencer.Ipfs.Memory.{memory}
use rust_defluencer.Prolly.Node.{
  LeafNode, BranchNode, binary_search, after_one, write_at, fits, insert_one, insert, zip, pairs,
  merge, erase_at, holds, remove_at_place, remove_batch, empty_node,
}
use rust_defluencer.Prolly.Node.Update.{IsNode}
use rust_defluencer.Prolly.Ipld.{TreeNodes, branch, leaf}
use rust_defluencer.Prolly.Split.{split}
use rust_defluencer.Prolly.Tree.{sorted_keys}
use rust_defluencer.Prolly.Batch.Remove.{
  removal_place, none_in, has_item, push_new, is_below, above_lower, below_upper, in_window,
  is_upper, lower_bound, first_window, move_window, take_out, push_before, take_key, take_low,
  removal_step, next_removal_in, next_removal, removals,
}
use rust_defluencer.Prolly.Insertion.{
  Chunking, first_keys, put_all, put_nodes, split_leaf, split_branch,
}
use rust_defluencer.Prolly.Removal.{
  merge_two, merge_onto, merge_all, get_all, remove_shares, remove_nodes, execute_batch_remove,
  removed_root, batch_remove,
}
use rust_defluencer.Prolly.Removal.Emptied.{batch_remove_all}

abbrev low : LeafNode ℕ ℕ
low = record { keys = 3 ∷ 4 ∷ []; values = 30 ∷ 40 ∷ [] }

abbrev middle : LeafNode ℕ ℕ
middle = record { keys = 6 ∷ 7 ∷ []; values = 60 ∷ 70 ∷ [] }

abbrev high : LeafNode ℕ ℕ
high = record { keys = 9 ∷ []; values = 90 ∷ [] }

abbrev top : BranchNode ℕ ℕ
top = record { keys = 3 ∷ 6 ∷ 9 ∷ []; values = 0 ∷ 1 ∷ 2 ∷ [] }

abbrev whole : Linked (TreeNodes ℕ ℕ ℕ) (TreeNodes ℕ ℕ ℕ)
whole = record { encode = λ t. t; decode = λ t. ok t; decode-encode = λ t. refl }

abbrev blocks : List (TreeNodes ℕ ℕ ℕ)
blocks = leaf low ∷ leaf middle ∷ leaf high ∷ branch top ∷ []

-- No node is large enough to be split.
abbrev whole_nodes : Chunking ℕ ℕ ℕ
whole_nodes = record {
  leaf_size = λ n. ok 0;
  branch_size = λ n. ok 0;
  leaf_boundary = λ k v. ok false;
  branch_boundary = λ k c. ok false;
  scale = λ n max bytes. max;
  min_size = 1;
  max_size = 100;
}

-- The key 6 is the first of its leaf: the share has the leaf before too, and goes on with the keys of
-- both. The branch loses the key.
shares_run :
    removals 5 top (4 ∷ 6 ∷ 7 ∷ 9 ∷ [])
    ≡ some
        (ok ((0 ∷ 1 ∷ 2 ∷ [], 4 ∷ 6 ∷ 7 ∷ 9 ∷ []) ∷ [], record { keys = 3 ∷ []; values = 0 ∷ [] }))
unfolding removals next_removal next_removal_in removal_step removal_place binary_search after_one
    first_window lower_bound move_window in_window above_lower below_upper is_below is_upper
    take_key take_low take_out push_before push_new has_item none_in
shares_run = refl

abbrev six : BranchNode ℕ ℕ
six = record { keys = 0 ∷ 3 ∷ 5 ∷ 7 ∷ 9 ∷ 10 ∷ []; values = 100 ∷ 101 ∷ 102 ∷ 103 ∷ 104 ∷ 105 ∷ [] }

-- The run of `remove_iter` in the source.
iter_runs :
    removals 9 six (0 ∷ 1 ∷ 2 ∷ 6 ∷ 7 ∷ 8 ∷ 9 ∷ 10 ∷ [])
    ≡ some (
        ok (
          (100 ∷ [], 0 ∷ 1 ∷ 2 ∷ []) ∷ (102 ∷ 103 ∷ 104 ∷ 105 ∷ [], 6 ∷ 7 ∷ 8 ∷ 9 ∷ 10 ∷ []) ∷ [],
          record { keys = 3 ∷ 5 ∷ []; values = 101 ∷ 102 ∷ [] },
        ))
unfolding removals next_removal next_removal_in removal_step removal_place binary_search after_one
    first_window lower_bound move_window in_window above_lower below_upper is_below is_upper
    take_key take_low take_out push_before push_new has_item none_in
iter_runs = refl

-- Removing 4 and 7 changes two leaves and the branch; nothing is merged.
remove_runs :
    batch_remove memory whole whole_nodes 2 2 3 (7 ∷ 4 ∷ 7 ∷ []) blocks
    ≡ some (
      ok 6,
      leaf low
          ∷ leaf middle
          ∷ leaf high
          ∷ branch top
          ∷ leaf (record { keys = 3 ∷ []; values = 30 ∷ [] })
          ∷ leaf (record { keys = 6 ∷ []; values = 60 ∷ [] })
          ∷ branch (record { keys = 3 ∷ 6 ∷ 9 ∷ []; values = 4 ∷ 5 ∷ 2 ∷ [] })
          ∷ [],
    )
unfolding batch_remove execute_batch_remove remove_nodes remove_shares get_all merge_all merge_onto
    merge_two merge pairs removed_root split_leaf split_branch split put_nodes put_all first_keys
    removals next_removal next_removal_in removal_step removal_place binary_search after_one
    first_window lower_bound move_window in_window above_lower below_upper is_below is_upper
    take_key take_low take_out push_before push_new has_item none_in remove_batch remove_at_place
    erase_at holds write_at fits insert_one insert zip dag_put dag_get sorted_keys set_insert
remove_runs = refl

-- Removing 6 and 7 merges the two first leaves.
merge_runs :
    batch_remove memory whole whole_nodes 2 2 3 (6 ∷ 7 ∷ []) blocks
    ≡ some (
      ok 5,
      leaf low
          ∷ leaf middle
          ∷ leaf high
          ∷ branch top
          ∷ leaf (record { keys = 3 ∷ 4 ∷ []; values = 30 ∷ 40 ∷ [] })
          ∷ branch (record { keys = 3 ∷ 9 ∷ []; values = 4 ∷ 2 ∷ [] })
          ∷ [],
    )
unfolding batch_remove execute_batch_remove remove_nodes remove_shares get_all merge_all merge_onto
    merge_two merge pairs removed_root split_leaf split_branch split put_nodes put_all first_keys
    removals next_removal next_removal_in removal_step removal_place binary_search after_one
    first_window lower_bound move_window in_window above_lower below_upper is_below is_upper
    take_key take_low take_out push_before push_new has_item none_in remove_batch remove_at_place
    erase_at holds write_at fits insert_one insert zip dag_put dag_get sorted_keys set_insert
merge_runs = refl

middle-IsNode : IsNode middle
middle-IsNode = record { sorted = ((refl, tt), (tt, tt)); paired = refl }

middle_loads : dag_get memory whole 1 blocks ≡ ok (leaf middle)
unfolding dag_get
middle_loads = refl

batch_remove_all_example : batch_remove memory whole whole_nodes 1 1 1 middle.keys blocks ≡ (
    if ltb 0 1 then some (panic, blocks) else some (dag_put memory whole (leaf empty_node) blocks))
batch_remove_all_example =
    batch_remove_all memory whole whole_nodes 0 0 1 middle 0 blocks middle-IsNode middle_loads refl
