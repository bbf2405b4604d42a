-- ===== src/Hamt/Tests.antt =====
-- Runs of the trie on a node in memory, and its theorems at those runs.
use rust_defluencer.Base.{
  ℕ, ◌/◌, ◌%◌, ◌≡◌, refl, inl, true, false, Option, none, some, List, [], ◌∷◌, ◌++◌, Result, ok,
  err, panic, ipfs_api, length, replicate, Action, ap, sym,
}
use rust_defluencer.Ipfs.{Linked, dag_put, dag_get}
use rust_defluencer.Ipfs.Memory.{memory}
use rust_defluencer.LinkedData.Hamt.{
  Digest, eq_key, BucketEntry, link, bucket, HamtNode, HamtRoot, empty_node, empty_root, bucket_get,
  bucket_insert, bucket_remove,
}
use rust_defluencer.Hamt.{
  byte, set_bit, slot, put_slot, add_slot, drop_slot, find_in, find, set_all, set_in, set_key,
  put_node, delete_entry, delete_in, delete, get, insert, remove, remove_root, count_links,
  count_entries,
}
use rust_defluencer.Hamt.Index.{get-insert}
use rust_defluencer.Hamt.Remove.{remove_bucket, remove_drops_single}
use rust_defluencer.Hamt.Depth.{panics_below_last_byte}

data TestBlock : Type 0 where
  node_block : HamtNode ℕ → TestBlock
  root_block : HamtRoot ℕ → TestBlock

abbrev as_node : TestBlock → Result (HamtNode ℕ)
as_node (node_block n) = ok n
as_node (root_block r) = err ipfs_api

abbrev as_root : TestBlock → Result (HamtRoot ℕ)
as_root (node_block n) = err ipfs_api
as_root (root_block r) = ok r

abbrev nodes : Linked TestBlock (HamtNode ℕ)
nodes = record { encode = node_block; decode = as_node; decode-encode = λ t. refl }

abbrev roots : Linked TestBlock (HamtRoot ℕ)
roots = record { encode = root_block; decode = as_root; decode-encode = λ t. refl }

-- Keys above 255 share the first byte of the digest with others.
abbrev digest_of : ℕ → Result Digest
digest_of k = ok (k % 256 ∷ k / 256 ∷ replicate 30 0)

abbrev length_of : Result Digest → ℕ
length_of (ok d) = length d
length_of (err e) = 32
length_of panic = 32

digest_length : (k : ℕ) (d : Digest) → digest_of k ≡ ok d → length d ≡ 32
digest_length k d h = sym (ap length_of h)

abbrev Mem : Type 0
Mem = List TestBlock

abbrev insert' : ℕ → ℕ → ℕ → Action Mem ℕ
insert' = insert memory nodes roots digest_of

abbrev start : Mem
start = root_block empty_root ∷ []

-- 5 and 261 share a bucket; 7 has its own.
stored : Result ℕ × Mem
unfolding insert set_key set_in set_all put_node put_slot add_slot slot byte empty_root dag_put
    dag_get bucket_insert
stored = insert' 0 5 50 start

stored_runs : stored.0 ≡ ok 2
unfolding stored
stored_runs = refl

found : get memory nodes roots digest_of 2 5 stored.1 ≡ ok (some 50)
unfolding stored get find find_in bucket_get eq_key set_bit
found = refl

before : get memory nodes roots digest_of 0 5 start ≡ ok none
unfolding get find find_in slot byte empty_root dag_get
before = refl

get-insert_example : get memory nodes roots digest_of 2 5 stored.1 ≡ ok (some 50)
unfolding stored eq_key
get-insert_example =
    get-insert memory nodes roots digest_of digest_length 0 5 50 start 2 stored.1 5
      (5 ∷ 0 ∷ replicate 30 0) (5 ∷ 0 ∷ replicate 30 0) none refl refl before refl

-- A root with a bucket at the byte 5.
abbrev root_with : List (BucketEntry ℕ) → HamtRoot ℕ
root_with b = record {
  hash_algorithm = 0x12;
  bucket_size = 3;
  hamt = record {
    map = replicate 5 false ++ (true ∷ replicate 250 false);
    elements = bucket b ∷ [];
  };
}

abbrev key_of : ℕ → ℕ → Digest
key_of a b = a ∷ b ∷ replicate 30 0

abbrev single : List (BucketEntry ℕ)
single = record { key = key_of 5 0; value = 50 } ∷ []

abbrev pair_of : List (BucketEntry ℕ)
pair_of = record { key = key_of 5 0; value = 50 } ∷ record { key = key_of 5 1; value = 51 } ∷ []

abbrev removed : List (BucketEntry ℕ) → ℕ → Result (Option ℕ × ℕ) × Mem
removed b k = remove memory nodes roots digest_of 0 k (root_block (root_with b) ∷ [])

-- 261 was never there, and the entry of 5 is dropped.
remove_drops_single_example :
    (get memory nodes roots digest_of 0 5 (root_block (root_with single) ∷ []) ≡ ok (some 50))
    × (◌≡◌ {A = Option ℕ} (some 261) (some 261))
    × (get memory nodes roots digest_of 2 5 (removed single 261).1 ≡ ok none)
unfolding remove delete delete_in delete_entry put_node dag_put dag_get slot byte drop_slot
    remove_root count_links count_entries
remove_drops_single_example =
    remove_drops_single memory nodes roots digest_of 0 261 5 (root_block (root_with single) ∷ [])
      (key_of 5 1) (key_of 5 0) 5 (root_with single) single refl refl refl refl refl 50 (some 261) 2
      (removed single 261).1 refl refl refl

remove_bucket_example :
    (◌≡◌ {A = Option ℕ} (some 261) (some 261))
    × (get memory nodes roots digest_of 2 5 (removed pair_of 261).1 ≡ ok (some 50))
unfolding remove delete delete_in delete_entry put_node dag_put dag_get slot byte put_slot
    remove_root count_links count_entries bucket_remove eq_key get find find_in bucket_get
remove_bucket_example =
    remove_bucket memory nodes roots digest_of 0 261 5 (root_block (root_with pair_of) ∷ [])
      (key_of 5 1) (key_of 5 0) 5 (root_with pair_of) pair_of refl refl refl refl refl (some 50)
      (some 261) 2 (removed pair_of 261).1 (inl refl) refl refl

-- A node with a link at the byte 0.
abbrev linked_node : HamtNode ℕ
linked_node = record { map = true ∷ replicate 255 false; elements = link 0 ∷ [] }

panics_below_last_byte_example :
    (find memory nodes 33 (key_of 0 0) 31 linked_node (node_block empty_node ∷ []) ≡ panic)
    × ((set_key memory nodes 33 (key_of 0 0) 9 31 linked_node (node_block empty_node ∷ [])).0
        ≡ panic)
unfolding dag_get slot byte
panics_below_last_byte_example =
    panics_below_last_byte memory nodes 31 (key_of 0 0) 9 linked_node empty_node 0 0
      (node_block empty_node ∷ []) refl refl refl
