-- ===== src/Prolly/Insertion/Tests.antt =====
-- An insertion below the first key of a tree of two leaves, which is lost, and one in the first leaf, on an IPFS
-- node in memory.
use rust_defluencer.Base.{◌*◌, ◌/◌, length, ℕ, ◌≡◌, refl, false, List, [], ◌∷◌, some, ok}
use rust_defluencer.Base.Key.{nat_key}
use rust_defluencer.Ipfs.{Linked, dag_put, dag_get}
use rust_defluencer.Ipfs.Memory.{memory}
use rust_defluencer.Prolly.Node.{
  LeafNode, BranchNode, binary_search, write_at, fits, insert_one, insert, zip,
}
use rust_defluencer.Prolly.Node.Update.{IsNode}
use rust_defluencer.Prolly.Ipld.{TreeNodes, branch, leaf}
use rust_defluencer.Prolly.Split.{split}
use rust_defluencer.Prolly.Batch.{link_at, child_place, yielded, next_in, next, batches}
use rust_defluencer.Prolly.Insertion.{
  Chunking, first_keys, put_all, put_nodes, split_leaf, split_branch, insert_shares, insert_nodes,
  execute_batch_insert, raise_root, batch_insert,
}
use rust_defluencer.Prolly.Insertion.Lost.{batch_insert_lost}

abbrev low : LeafNode ℕ ℕ
low = record { keys = 3 ∷ 4 ∷ []; values = 30 ∷ 40 ∷ [] }

abbrev high : LeafNode ℕ ℕ
high = record { keys = 6 ∷ 7 ∷ []; values = 60 ∷ 70 ∷ [] }

abbrev top : BranchNode ℕ ℕ
top = record { keys = 3 ∷ 6 ∷ []; values = 0 ∷ 1 ∷ [] }

abbrev whole : Linked (TreeNodes ℕ ℕ ℕ) (TreeNodes ℕ ℕ ℕ)
whole = record { encode = λ t. t; decode = λ t. ok t; decode-encode = λ t. refl }

abbrev blocks : List (TreeNodes ℕ ℕ ℕ)
blocks = leaf low ∷ leaf high ∷ branch top ∷ []

-- No node is large enough to be split.
abbrev whole_nodes : Chunking ℕ ℕ ℕ
whole_nodes = record {
  leaf_size = λ n. ok 0;
  branch_size = λ n. ok 0;
  leaf_boundary = λ k v. ok false;
  branch_boundary = λ k c. ok false;
  scale = λ n max bytes. max;
  min_size = 1;
  max_size = 100;
}

top-IsNode : IsNode top
top-IsNode = record { sorted = ((refl, tt), (tt, tt)); paired = refl }

top_loads : dag_get memory whole 2 blocks ≡ ok (branch top)
unfolding dag_get
top_loads = refl

-- The leaf is replaced, and the branch has its new link.
insert_runs :
    batch_insert memory whole whole_nodes (λ b. b) 2 3 5 2 ((5, 50) ∷ []) blocks
    ≡ some (
      ok 4,
      leaf low
          ∷ leaf high
          ∷ branch top
          ∷ leaf (record { keys = 3 ∷ 4 ∷ 5 ∷ []; values = 30 ∷ 40 ∷ 50 ∷ [] })
          ∷ branch (record { keys = 3 ∷ 6 ∷ []; values = 3 ∷ 1 ∷ [] })
          ∷ [],
    )
unfolding batch_insert execute_batch_insert insert_nodes insert_shares split_leaf split_branch split
    put_nodes put_all first_keys raise_root batches next next_in link_at child_place yielded
    binary_search write_at fits insert_one insert zip dag_put dag_get
insert_runs = refl

batch_insert_lost_example :
    batch_insert memory whole whole_nodes (λ b. b) 2 3 5 2 ((1, 10) ∷ []) blocks
    ≡ batch_insert memory whole whole_nodes (λ b. b) 2 3 5 2 [] blocks
batch_insert_lost_example =
    batch_insert_lost memory whole whole_nodes (λ b. b) 1 3 5 2 top ((1, 10) ∷ []) blocks refl
      top_loads top-IsNode ((refl, (refl, tt)), tt)

-- Each pair takes ten bytes, and a node may have five.
abbrev narrow_nodes : Chunking ℕ ℕ ℕ
narrow_nodes = record whole_nodes {
  leaf_size = λ n. ok (10 * length n.keys);
  scale = λ n max bytes. n * max / bytes;
  max_size = 5;
}

abbrev no_pairs : LeafNode ℕ ℕ
no_pairs = record { keys = []; values = [] }

abbrev one_pair : LeafNode ℕ ℕ
one_pair = record { keys = 1 ∷ []; values = 10 ∷ [] }
