-- ===== src/Hamt.antt =====
-- defluencer/src/indexing/hamt.rs: `get`, `insert`, `set`, `remove` and `delete` of the hash array
-- mapped trie, over the blocks of an IPFS node. A node that the source mutates is returned beside
-- the identifier. The recursion goes one byte of the digest down at each level; it is bounded by a
-- count of levels, and `levels` of them are enough: a digest has 32 bytes, so that `key[depth]`
-- panics at the 33rd level before anything else happens there.
pub mod Slots
pub mod Buckets
pub mod Find
pub mod Reads
pub mod Insert
pub mod Index
pub mod Remove
pub mod Growth
pub mod Depth
mod Tests
use Prim.Native.Nat.Ordering.{lt, eq, gt}
use rust_defluencer.Base.{
  ℕ, zero, suc, ◌+◌, ◌≡◌, Bool, true, false, ◌&&◌, ◌||◌, Option, none, some, List, [], ◌∷◌, ◌++◌,
  if◌then◌else◌, ltb, leb, ◌==◌, length, get_elem?, insert_at, remove_at, set, or_panic, and_then,
  Error, max_depth, Result, ok, err, panic, Action, pure, lift, read, ◌>>=◌,
}
use rust_defluencer.Ipfs.{Ipfs, Linked, dag_put, dag_get}
use rust_defluencer.LinkedData.Hamt.{
  digest_length_bytes, bucket_size, Digest, BucketEntry, Element, link, bucket, HamtNode, HamtRoot,
  empty_node, bucket_get, bucket_insert, bucket_remove,
}

-- One more than the bytes of a digest.
abbrev pub levels : ℕ
levels = 33

-- `key[depth]`: an index past the end of the array panics.
unfoldable pub byte : Digest → ℕ → Option ℕ
byte key depth = if ltb depth digest_length_bytes then get_elem? key depth else none

-- `map[index]`
unfoldable pub bit : List Bool → ℕ → Bool
bit [] i = false
bit (b ∷ bs) zero = b
bit (b ∷ bs) (suc i) = bit bs i

-- `map.set(index, b)`. An index is a byte and a map has 256 bits; past the end of a shorter list
-- the bits read as `false`, and are written out.
unfoldable pub set_bit : List Bool → ℕ → Bool → List Bool
set_bit [] zero b = b ∷ []
set_bit [] (suc i) b = false ∷ set_bit [] i b
set_bit (c ∷ cs) zero b = b ∷ cs
set_bit (c ∷ cs) (suc i) b = c ∷ set_bit cs i b

-- `map[0..index].count_ones()`
unfoldable pub rank : List Bool → ℕ → ℕ
rank [] i = 0
rank (b ∷ bs) zero = 0
rank (true ∷ bs) (suc i) = suc (rank bs i)
rank (false ∷ bs) (suc i) = rank bs i

-- What a node has at an index: its bit is not set, or the element at `data_index`, which panics
-- if the node is too short.
pub data Slot (C : Type 0) : Type 0 where
  empty : Slot C
  missing : Slot C
  held : Element C → Slot C

module _ {C : Type 0} where
  unfoldable pub element_slot : Option (Element C) → Slot C
  element_slot none = missing
  element_slot (some e) = held e

  unfoldable pub slot : HamtNode C → ℕ → Slot C
  unfolding element_slot bit rank
  slot node index =
      if bit node.map index
      then element_slot (get_elem? node.elements (rank node.map index))
      else empty

  -- `node.data.insert(data_index, element); map.set(index, true)`
  unfoldable pub add_slot : HamtNode C → ℕ → Element C → Result (HamtNode C)
  unfolding rank
  add_slot node index e =
      if leb (rank node.map index) (length node.elements)
      then ok (record {
        map = set_bit node.map index true;
        elements = insert_at node.elements (rank node.map index) e;
      })
      else panic

  -- `node.data[data_index] = element`
  unfoldable pub put_slot : HamtNode C → ℕ → Element C → HamtNode C
  unfolding rank
  put_slot node index e = record node { elements = set node.elements (rank node.map index) e }

  -- `map.set(index, false); node.data.remove(data_index)`
  unfoldable pub drop_slot : HamtNode C → ℕ → HamtNode C
  unfolding rank
  drop_slot node index = record {
    map = set_bit node.map index false;
    elements = remove_at node.elements (rank node.map index);
  }

module _ {C S : Type 0} (ipfs : Ipfs C S) (nodes : Linked ipfs.Block (HamtNode C)) where
  -- The `match` of the loop in `get`, on the element at the index.
  unfoldable pub find_in :
      (HamtNode C → S → Result (Option C)) → Digest → ℕ → Slot C → S → Result (Option C)
  find_in next key depth empty s = ok none
  find_in next key depth missing s = panic
  find_in next key depth (held (link c)) s =
      if ltb digest_length_bytes (depth + 1)
      then err max_depth
      else and_then (dag_get ipfs nodes c s) (λ node. next node s)
  find_in next key depth (held (bucket btree)) s = ok (bucket_get key btree)

  -- The loop of `get`.
  unfoldable pub find : ℕ → Digest → ℕ → HamtNode C → S → Result (Option C)
  find zero key depth node s = panic
  find (suc n) key depth node s = elim (byte key depth) [
    | none ↦ panic
    | some index ↦ find_in (find n key (depth + 1)) key depth (slot node index) s
  ]

  -- `dag_put(&node)`, with the node that was put.
  unfoldable pub put_node : HamtNode C → Action S (C × HamtNode C)
  put_node node = dag_put ipfs nodes node >>= λ cid. pure (cid, node)

  -- The loop that moves the entries of a full bucket to a new node.
  unfoldable pub set_all :
      (Digest → C → HamtNode C → Action S (C × HamtNode C))
      → List (BucketEntry C)
      → HamtNode C
      → Action S (HamtNode C)
  set_all next [] node = pure node
  set_all next (item ∷ items) node = next item.key item.value node >>= λ r. set_all next items r.1

  -- The cases of `set`, on what the node has at the index.
  unfoldable pub set_in :
      (Digest → C → ℕ → HamtNode C → Action S (C × HamtNode C))
      → Digest
      → C
      → ℕ
      → HamtNode C
      → ℕ
      → Slot C
      → Action S (C × HamtNode C)
  set_in next key value depth node index empty =
      lift (add_slot node index (bucket (record { key = key; value = value } ∷ []))) >>= put_node
  set_in next key value depth node index missing = lift panic
  set_in next key value depth node index (held (link c)) =
      if ltb digest_length_bytes (depth + 1)
      then lift (err max_depth)
      else (read (dag_get ipfs nodes c) >>= λ new_node.
          next key value (depth + 1) new_node >>= λ r. put_node (put_slot node index (link r.0)))
  set_in next key value depth node index (held (bucket btree)) =
      if ltb (length btree) bucket_size
      then put_node
          (put_slot node index (bucket (bucket_insert (record { key = key; value = value }) btree)))
      else (set_all (λ k v. next k v (depth + 1)) btree empty_node >>= λ new_node.
          next key value (depth + 1) new_node >>= λ r. put_node (put_slot node index (link r.0)))

  -- `set`
  unfoldable pub set_key : ℕ → Digest → C → ℕ → HamtNode C → Action S (C × HamtNode C)
  set_key zero key value depth node = lift panic
  set_key (suc n) key value depth node = elim (byte key depth) [
    | none ↦ lift panic
    | some index ↦ set_in (set_key n) key value depth node index (slot node index)
  ]

  -- The numbers of links and of bucket entries of a node.
  pub count_links : List (Element C) → ℕ
  count_links [] = 0
  count_links (link c ∷ es) = suc (count_links es)
  count_links (bucket b ∷ es) = count_links es

  pub count_entries : List (Element C) → ℕ
  count_entries [] = 0
  count_entries (link c ∷ es) = count_entries es
  count_entries (bucket b ∷ es) = length b + count_entries es

  -- The entries of all buckets of a node, and `BTreeSet::from_iter` of them.
  pub all_entries : List (Element C) → List (BucketEntry C)
  all_entries [] = []
  all_entries (link c ∷ es) = all_entries es
  all_entries (bucket b ∷ es) = b ++ all_entries es

  pub collect : List (BucketEntry C) → List (BucketEntry C)
  collect [] = []
  collect (e ∷ es) = bucket_insert e (collect es)

  -- The end of `delete`, for a node whose element at the index is the bucket `btree`.
  pub delete_entry :
      Digest
      → ℕ
      → HamtNode C
      → ℕ
      → List (BucketEntry C)
      → Action S (Option (Element C) × HamtNode C)
  delete_entry key depth node index btree =
      if depth == 0
        || ltb 0 (count_links node.elements)
        || ltb (bucket_size + 1) (count_entries node.elements)
      then (put_node (
            if ltb 1 (length btree)
            then put_slot node index (bucket (bucket_remove key btree))
            else drop_slot node index)
          >>= λ r. pure (some (link r.0), r.1))
      else pure (some (bucket (bucket_remove key (collect (all_entries node.elements)))), node)

  -- What `delete` does with the answer of the recursive call.
  pub delete_below :
      Digest → ℕ → HamtNode C → ℕ → Option (Element C) → Action S (Option (Element C) × HamtNode C)
  delete_below key depth node index none = pure (none, node)
  delete_below key depth node index (some (link c)) =
      put_node (put_slot node index (link c)) >>= λ r. pure (some (link r.0), r.1)
  delete_below key depth node index (some (bucket b)) =
      delete_entry key depth (put_slot node index (bucket b)) index b

  pub delete_in :
      (Digest → ℕ → HamtNode C → Action S (Option (Element C) × HamtNode C))
      → Digest
      → ℕ
      → HamtNode C
      → ℕ
      → Slot C
      → Action S (Option (Element C) × HamtNode C)
  delete_in next key depth node index empty = pure (none, node)
  delete_in next key depth node index missing = lift panic
  delete_in next key depth node index (held (link c)) =
      if ltb digest_length_bytes (depth + 1)
      then lift (err max_depth)
      else (read (dag_get ipfs nodes c) >>= λ new_node.
          next key (depth + 1) new_node >>= λ r. delete_below key depth node index r.0)
  delete_in next key depth node index (held (bucket btree)) =
      delete_entry key depth node index btree

  -- `delete`
  pub delete : ℕ → Digest → ℕ → HamtNode C → Action S (Option (Element C) × HamtNode C)
  delete zero key depth node = lift panic
  delete (suc n) key depth node = elim (byte key depth) [
    | none ↦ lift panic
    | some index ↦ delete_in (delete n) key depth node index (slot node index)
  ]

-- The operations on an index, given by the link to its root. `digest` is
-- `key.hash().resize()?.into_inner()` of the crates cid and multihash.
module _ {C S : Type 0} (ipfs : Ipfs C S) (nodes : Linked ipfs.Block (HamtNode C))
    (roots : Linked ipfs.Block (HamtRoot C)) (digest : C → Result Digest) where
  -- `get`
  unfoldable pub get : C → C → S → Result (Option C)
  get root key s =
      and_then (digest key)
        (λ d. and_then (dag_get ipfs roots root s) (λ r. find ipfs nodes levels d 0 r.hamt s))

  -- `insert`, with the new value of `index`.
  unfoldable pub insert : C → C → C → Action S C
  insert index key value = lift (digest key) >>= λ d. read (dag_get ipfs roots index) >>= λ root.
      set_key ipfs nodes levels d value 0 root.hamt >>= λ r.
      dag_put ipfs roots (record root { hamt = r.1 })

  -- What `remove` does after `delete`.
  pub remove_root : C → C → HamtRoot C → Option (Element C) × HamtNode C → Action S (Option C × C)
  remove_root index key root (none, node) = pure (none, index)
  remove_root index key root (some _, node) =
      dag_put ipfs roots (record root { hamt = node }) >>= λ new_idx. pure (some key, new_idx)

  -- `remove`, with the new value of `index`.
  pub remove : C → C → Action S (Option C × C)
  remove index key = lift (digest key) >>= λ d. read (dag_get ipfs roots index) >>= λ root.
      delete ipfs nodes levels d 0 root.hamt >>= λ r. remove_root index key root r
