-- ===== src/Hamt/Growth.antt =====
-- `insert` and `remove` lose no block.
use rust_defluencer.Base.{
  ℕ, zero, suc, inl, inr, Option, none, some, Option-cases, Result, Action, lift, read, Post-imp,
  ◌+◌, ◌||◌, ltb, ◌==◌, List,
}
use rust_defluencer.Ipfs.{Ipfs, Linked, Grows, Grows-refl, dag_put, dag_get}
use rust_defluencer.Ipfs.Growing.{
  Growing, Growing-bind, if-Growing, Growing-read, Growing-lift, Growing-dag_put,
}
use rust_defluencer.LinkedData.Hamt.{
  Digest, Element, link, bucket, BucketEntry, HamtNode, HamtRoot, digest_length_bytes, bucket_size,
}
use rust_defluencer.Hamt.{
  Slot, empty, missing, held, levels, byte, slot, put_slot, put_node, count_links, count_entries,
  set_key, delete_entry, delete_below, delete_in, delete, insert, remove_root, remove,
}
use rust_defluencer.Hamt.Reads.{Stored}
use rust_defluencer.Hamt.Insert.{set_key-Stored}

module _ {C S : Type 0} (ipfs : Ipfs C S) (nodes : Linked ipfs.Block (HamtNode C)) where
  put_node-Growing : (node : HamtNode C) → Growing ipfs (put_node ipfs nodes node)
  unfolding put_node
  put_node-Growing node =
      Growing-bind ipfs (dag_put ipfs nodes node) _ (Growing-dag_put ipfs nodes node)
        (λ cid s. Grows-refl ipfs s)

  delete_entry-Growing :
      (key : Digest) (depth : ℕ) (node : HamtNode C) (index : ℕ) (btree : List (BucketEntry C))
      → Growing ipfs (delete_entry ipfs nodes key depth node index btree)
  unfolding delete_entry
  delete_entry-Growing key depth node index btree =
      if-Growing ipfs
        (depth == 0
          || ltb 0 (count_links ipfs nodes node.elements)
          || ltb (bucket_size + 1) (count_entries ipfs nodes node.elements))
        _ _
        (Growing-bind ipfs (put_node ipfs nodes _) _ (put_node-Growing _)
          (λ r s. Grows-refl ipfs s))
        (λ s. Grows-refl ipfs s)

  delete_below-Growing :
      (key : Digest) (depth : ℕ) (node : HamtNode C) (index : ℕ) (o : Option (Element C))
      → Growing ipfs (delete_below ipfs nodes key depth node index o)
  unfolding delete_below
  delete_below-Growing key depth node index none = λ s. Grows-refl ipfs s
  delete_below-Growing key depth node index (some (link c)) =
      Growing-bind ipfs (put_node ipfs nodes (put_slot node index (link c))) _
        (put_node-Growing (put_slot node index (link c))) (λ r s. Grows-refl ipfs s)
  delete_below-Growing key depth node index (some (bucket b)) =
      delete_entry-Growing key depth (put_slot node index (bucket b)) index b

  delete_in-Growing :
      (next : Digest → ℕ → HamtNode C → Action S (Option (Element C) × HamtNode C)) (key : Digest)
      (depth : ℕ) (node : HamtNode C) (index : ℕ) (o : Slot C)
      → ((key : Digest) (depth : ℕ) (node : HamtNode C) → Growing ipfs (next key depth node))
      → Growing ipfs (delete_in ipfs nodes next key depth node index o)
  unfolding delete_in
  delete_in-Growing next key depth node index empty ih = λ s. Grows-refl ipfs s
  delete_in-Growing next key depth node index missing ih = λ s. tt
  delete_in-Growing next key depth node index (held (link c)) ih =
      if-Growing ipfs (ltb digest_length_bytes (depth + 1)) _ _ (λ s. tt)
        (Growing-bind ipfs (read (dag_get ipfs nodes c)) _
          (Growing-read ipfs (dag_get ipfs nodes c))
          (λ new_node.
            Growing-bind ipfs (next key (depth + 1) new_node) _ (ih key (depth + 1) new_node)
              (λ r. delete_below-Growing key depth node index r.0)))
  delete_in-Growing next key depth node index (held (bucket b)) ih =
      delete_entry-Growing key depth node index b

  delete-Growing :
      (n : ℕ) (key : Digest) (depth : ℕ) (node : HamtNode C)
      → Growing ipfs (delete ipfs nodes n key depth node)
  unfolding delete
  delete-Growing zero key depth node = λ s. tt
  delete-Growing (suc n) key depth node = elim (Option-cases (byte key depth)) [
    | inl e ↦ rw (delete, e) (λ s. tt)
    | inr (i, e) ↦
        rw (delete, e)
          (delete_in-Growing (delete ipfs nodes n) key depth node i (slot node i)
            (λ key depth node. delete-Growing n key depth node))
  ]

module _ {C S : Type 0} (ipfs : Ipfs C S) (nodes : Linked ipfs.Block (HamtNode C))
    (roots : Linked ipfs.Block (HamtRoot C)) (digest : C → Result Digest) where
  remove_root-Growing :
      (index key : C) (root : HamtRoot C) (r : Option (Element C) × HamtNode C)
      → Growing ipfs (remove_root ipfs nodes roots digest index key root r)
  unfolding remove_root
  remove_root-Growing index key root (none, node) = λ s. Grows-refl ipfs s
  remove_root-Growing index key root (some e, node) =
      Growing-bind ipfs (dag_put ipfs roots (record root { hamt = node })) _
        (Growing-dag_put ipfs roots (record root { hamt = node })) (λ c s. Grows-refl ipfs s)

  pub remove-Growing : (index key : C) → Growing ipfs (remove ipfs nodes roots digest index key)
  unfolding remove
  remove-Growing index key =
      Growing-bind ipfs (lift (digest key)) _ (Growing-lift ipfs (digest key)) (λ d.
        Growing-bind ipfs (read (dag_get ipfs roots index)) _
          (Growing-read ipfs (dag_get ipfs roots index))
          (λ root.
            Growing-bind ipfs (delete ipfs nodes levels d 0 root.hamt) _
              (delete-Growing ipfs nodes levels d 0 root.hamt)
              (λ r. remove_root-Growing index key root r)))

  pub insert-Growing :
      (index key value : C) → Growing ipfs (insert ipfs nodes roots digest index key value)
  unfolding insert
  insert-Growing index key value =
      Growing-bind ipfs (lift (digest key)) _ (Growing-lift ipfs (digest key)) (λ d.
        Growing-bind ipfs (read (dag_get ipfs roots index)) _
          (Growing-read ipfs (dag_get ipfs roots index))
          (λ root.
            Growing-bind ipfs (set_key ipfs nodes levels d value 0 root.hamt) _
              (λ s.
                Post-imp (Stored ipfs nodes levels d value 0 root.hamt s) (λ r t. Grows ipfs s t) _
                  _ (λ r _ st. st.0) (set_key-Stored ipfs nodes levels d value 0 root.hamt s))
              (λ r. Growing-dag_put ipfs roots (record root { hamt = r.1 }))))
