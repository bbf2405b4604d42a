-- ===== src/Hamt/Remove.antt =====
-- `remove` of an index whose root has a bucket where the digest of the key leads. What the code
-- does there is right for a key that the bucket holds; a bucket with a single entry is dropped
-- without a look at its key.
use mathlib.Core.Path.{subst}
use rust_defluencer.Base.{
  ℕ, ◌≡◌, ◌≢◌, refl, ap, sym, ◌∙◌, ◌⊎◌, inl, inr, true, false, Option, none, some, List, [], ◌∷◌,
  Result, ok, pure, ◌>>=◌, ltb, arith, length, Bool-cases, if◌then◌else◌, Ensures, Ensures-returned,
  Ensures-bind, Post-imp,
}
use rust_defluencer.Ipfs.{
  Ipfs, Linked, Grows, Grows-trans, dag_put, dag_get, Grows-dag_put, dag_get-dag_put,
}
use rust_defluencer.LinkedData.Hamt.{
  Digest, eq_key, BucketEntry, Element, link, bucket, HamtNode, HamtRoot, bucket_get, bucket_remove,
}
use rust_defluencer.Hamt.{
  levels, byte, held, slot, put_slot, drop_slot, find_in, find, put_node, delete, delete_in,
  delete_entry, get, remove, remove_root,
}
use rust_defluencer.Hamt.Slots.{
  slot-put_slot_self, slot-put_slot_ne, slot-drop_slot_self, slot-drop_slot_ne,
}
use rust_defluencer.Hamt.Buckets.{bucket_get-bucket_remove, eq_key_iff, eq_key_refl, eq_key-byte_ne}
use rust_defluencer.Hamt.Find.{find-byte, byte_of_find, Grows-find_in, Grows-find}
use rust_defluencer.Hamt.Reads.{Post-Unit, put_node-stored, bucket_read}
use rust_defluencer.Hamt.Index.{get_root, find_of_get}
use native.Mathlib.Decide.{ℕ_discrete}

single_read :
    {C : Type 0} (b : List (BucketEntry C)) (dk dj : Digest)
    → ltb 1 (length b) ≡ false
    → bucket_get dk b ≢ none
    → none ≡ (if eq_key dj dk then none else bucket_get dj b)
unfolding bucket_get
single_read [] dk dj h n = absurd (n refl)
single_read (e ∷ []) dk dj h n =
    ground (arith, n, eq_key_iff dk e.key, eq_key_iff dj e.key, eq_key_iff dj dk)
single_read (e ∷ d ∷ b) dk dj h n = absurd (ground (arith, h))

module _ {C S : Type 0} (ipfs : Ipfs C S) (nodes : Linked ipfs.Block (HamtNode C))
    (roots : Linked ipfs.Block (HamtRoot C)) (digest : C → Result Digest) where
  -- `remove`, where the root has a bucket at the first byte of the digest of `key`.
  remove_run :
      (index key : C) (s : S) (dk : Digest) (i : ℕ) (root : HamtRoot C) (b : List (BucketEntry C))
      → digest key ≡ ok dk
      → dag_get ipfs roots index s ≡ ok root
      → byte dk 0 ≡ some i
      → slot root.hamt i ≡ held (bucket b)
      → remove ipfs nodes roots digest index key s
        ≡ (delete_entry ipfs nodes dk 0 root.hamt i b
              >>= remove_root ipfs nodes roots digest index key root)
            s
  unfolding remove delete delete_in
  remove_run index key s dk i root b ek load there at_i =
      rw (ek, load, there, delete) (rw (at_i, delete_in) refl)

  -- The node that `delete` leaves at the root.
  abbrev after_delete : Digest → HamtNode C → ℕ → List (BucketEntry C) → HamtNode C
  after_delete dk node i b =
      if ltb 1 (length b) then put_slot node i (bucket (bucket_remove dk b)) else drop_slot node i

  -- The index is replaced by one whose root has that node, and the key is returned.
  Removed : C → HamtRoot C → HamtNode C → S → Option C × C → S → Type 0
  Removed key root node s x s' =
      Grows ipfs s s'
      × (x.0 ≡ some key)
      × (dag_get ipfs roots x.1 s' ≡ ok (record root { hamt = node }))

  Deleted : HamtNode C → S → Option (Element C) × HamtNode C → S → Type 0
  Deleted node s x t = Grows ipfs s t × (x.1 ≡ node) × ((e : Element C) × (x.0 ≡ some e))

  delete_entry-Deleted :
      (dk : Digest) (node : HamtNode C) (i : ℕ) (b : List (BucketEntry C)) (s : S)
      → Ensures (Deleted (after_delete dk node i b) s) (delete_entry ipfs nodes dk 0 node i b s)
  unfolding Deleted delete_entry
  delete_entry-Deleted dk node i b s =
      Ensures-bind
        (λ (r : C × HamtNode C) (u : S).
          Grows ipfs s u × (dag_get ipfs nodes r.0 u ≡ ok r.1) × (r.1 ≡ after_delete dk node i b))
        (λ (x : Option (Element C) × HamtNode C) (u : S).
          Grows ipfs s u × (x.1 ≡ after_delete dk node i b) × ((e : Element C) × (x.0 ≡ some e)))
        (put_node ipfs nodes (after_delete dk node i b)) (λ r. pure (some (link r.0), r.1)) s
        (put_node-stored ipfs nodes (after_delete dk node i b) s)
        (λ r _ put. (put.0, put.2, (link r.0, refl)))

  remove_root-Removed :
      (index key : C) (root : HamtRoot C) (node : HamtNode C) (s t : S)
      (x : Option (Element C) × HamtNode C)
      → Deleted node s x t
      → Ensures (Removed key root node s) (remove_root ipfs nodes roots digest index key root x t)
  unfolding Removed Deleted remove_root
  remove_root-Removed index key root node s t (none, n) p = cc (p.2.1)
  remove_root-Removed index key root node s t (some e, n) p =
      Ensures-bind
        (λ (c : C) (u : S).
          Grows ipfs t u × (dag_get ipfs roots c u ≡ ok (record root { hamt = n })))
        (Removed key root node s) (dag_put ipfs roots (record root { hamt = n }))
        (λ new_idx. pure (some key, new_idx)) t
        (Post-imp (λ (c : C) (u : S). Unit {0})
          (λ (c : C) (u : S).
            Grows ipfs t u × (dag_get ipfs roots c u ≡ ok (record root { hamt = n })))
          (dag_put ipfs roots (record root { hamt = n }) t).0 _
          (λ c put _. (
            Grows-dag_put ipfs roots (record root { hamt = n }) t,
            dag_get-dag_put ipfs roots (record root { hamt = n }) t c put,
          ))
          (Post-Unit (dag_put ipfs roots (record root { hamt = n }) t).0 _))
        (λ c _ q. (
          Grows-trans ipfs s t (dag_put ipfs roots (record root { hamt = n }) t).1 p.0 q.0,
          refl,
          subst
              (λ (m : HamtNode C).
                dag_get ipfs roots c (dag_put ipfs roots (record root { hamt = n }) t).1
                ≡ ok (record root { hamt = m }))
              p.1 q.1,
        ))

  remove-Removed :
      (index key : C) (s : S) (dk : Digest) (i : ℕ) (root : HamtRoot C) (b : List (BucketEntry C))
      → digest key ≡ ok dk
      → dag_get ipfs roots index s ≡ ok root
      → byte dk 0 ≡ some i
      → slot root.hamt i ≡ held (bucket b)
      → Ensures
          (Removed key root (after_delete dk root.hamt i b) s)
          (remove ipfs nodes roots digest index key s)
  remove-Removed index key s dk i root b ek load there at_i =
      rw (remove_run index key s dk i root b ek load there at_i) (
        Ensures-bind (Deleted (after_delete dk root.hamt i b) s)
          (Removed key root (after_delete dk root.hamt i b) s)
          (delete_entry ipfs nodes dk 0 root.hamt i b)
          (remove_root ipfs nodes roots digest index key root) s
          (delete_entry-Deleted dk root.hamt i b s)
          (λ x _ p. remove_root-Removed index key root (after_delete dk root.hamt i b) s _ x p))

  -- Lookups through an index whose root is `root` with another node.
  module _ (index key j : C) (s : S) (dk dj : Digest) (i : ℕ) (root : HamtRoot C)
      (b : List (BucketEntry C)) (ek : digest key ≡ ok dk) (ej : digest j ≡ ok dj)
      (load : dag_get ipfs roots index s ≡ ok root) (there : byte dk 0 ≡ some i)
      (at_i : slot root.hamt i ≡ held (bucket b)) where
    returned :
        (a : Option C) (index' : C) (s' : S)
        → remove ipfs nodes roots digest index key s ≡ (ok (a, index'), s')
        → Removed key root (after_delete dk root.hamt i b) s (a, index') s'
    returned a index' s' run =
        Ensures-returned (Removed key root (after_delete dk root.hamt i b) s)
          (remove ipfs nodes roots digest index key s) (a, index') s'
          (remove-Removed index key s dk i root b ek load there at_i) run

    -- Where the removal at `key` returns, it returns the key, and a key whose digest leads to the
    -- bucket's place is found in what is left there.
    get_after :
        (index' : C) (s' : S) (i' : ℕ)
        → byte dj 0 ≡ some i'
        → dag_get ipfs roots index' s' ≡ ok (record root { hamt = after_delete dk root.hamt i b })
        → get ipfs nodes roots digest index' j s'
          ≡ find_in ipfs nodes
              (find ipfs nodes 32 dj 1)
              dj
              0
              (slot (after_delete dk root.hamt i b) i')
              s'
    get_after index' s' i' at_j l =
        get_root ipfs nodes roots digest index' j s'
          (record root { hamt = after_delete dk root.hamt i b }) dj ej l
        ∙ find-byte ipfs nodes 32 dj 0 (after_delete dk root.hamt i b) s' i' at_j

    after_ne : (i' : ℕ) → i ≢ i' → slot (after_delete dk root.hamt i b) i' ≡ slot root.hamt i'
    after_ne i' ne = elim (Bool-cases (ltb 1 (length b))) [
      | inl many ↦ rw many (slot-put_slot_ne root.hamt i i' _ (bucket b) at_i ne)
      | inr one ↦ rw one (slot-drop_slot_ne root.hamt i i' (bucket b) at_i ne)
    ]

    after_self :
        (s' : S)
        → (ltb 1 (length b) ≡ true) ⊎ (bucket_get dk b ≢ none)
        → find_in ipfs nodes
            (find ipfs nodes 32 dj 1)
            dj
            0
            (slot (after_delete dk root.hamt i b) i)
            s'
          ≡ ok (if eq_key dj dk then none else bucket_get dj b)
    unfolding find_in
    after_self s' held_there = elim (Bool-cases (ltb 1 (length b))) [
      | inl many ↦
          rw (many, slot-put_slot_self root.hamt i (bucket (bucket_remove dk b)) (bucket b) at_i)
            (ap ok (bucket_get-bucket_remove dk b dj))
      | inr one ↦
          rw (one, slot-drop_slot_self root.hamt i)
            (ap ok (
              single_read b dk dj one (elim held_there [
                | inl many ↦ absurd (ground (arith, one, many))
                | inr there' ↦ there'
              ])))
    ]

    -- What the lookup of `j` finds at the root, after the removal.
    reads_after :
        (r : Option C) (s' : S) (i' : ℕ)
        → Grows ipfs s s'
        → (ltb 1 (length b) ≡ true) ⊎ (bucket_get dk b ≢ none)
        → byte dj 0 ≡ some i'
        → find_in ipfs nodes (find ipfs nodes 32 dj 1) dj 0 (slot root.hamt i') s ≡ ok r
        → find_in ipfs nodes
            (find ipfs nodes 32 dj 1)
            dj
            0
            (slot (after_delete dk root.hamt i b) i')
            s'
          ≡ ok (if eq_key dj dk then none else r)
    reads_after r s' i' grows held_there at_j through = elim (ℕ_discrete i i') [
      | yes p ↦
          subst
            (λ x.
              find_in ipfs nodes (find ipfs nodes 32 dj 1) dj 0
                (slot (after_delete dk root.hamt i b) x) s'
              ≡ ok (if eq_key dj dk then none else r))
            p
            (after_self s' held_there
              ∙ ap (λ q. ok (if eq_key dj dk then none else q))
                  (bucket_read ipfs nodes 32 dj 0 b (slot root.hamt i') s
                    (ap (slot root.hamt) (sym p) ∙ at_i) through))
      | no p ↦
          rw (after_ne i' p, eq_key-byte_ne dj dk 0 (λ e. p (cc (e, there, at_j))))
            (Grows-find_in ipfs nodes (find ipfs nodes 32 dj 1) dj 0 s s' grows r
              (λ node. Grows-find ipfs nodes 32 dj 1 node s s' grows r) (slot root.hamt i') through)
    ]

    -- A removal that returns gives the key back and leaves every other key as it was, if the bucket
    -- where the key leads at the root holds the key, or holds two entries or more.
    pub remove_bucket :
        (r : Option C) (a : Option C) (index' : C) (s' : S)
        → (ltb 1 (length b) ≡ true) ⊎ (bucket_get dk b ≢ none)
        → get ipfs nodes roots digest index j s ≡ ok r
        → remove ipfs nodes roots digest index key s ≡ (ok (a, index'), s')
        → (a ≡ some key)
          × (get ipfs nodes roots digest index' j s' ≡ ok (if eq_key dj dk then none else r))
    remove_bucket r a index' s' held_there before run =
        let removed = returned a index' s' run in
        let (root', load', found) = find_of_get ipfs nodes roots digest index j s dj ej before in
        let same : root' ≡ root = cc (load, load') in
        let found' : find ipfs nodes levels dj 0 root.hamt s ≡ ok r =
          subst (λ (x : HamtRoot C). find ipfs nodes levels dj 0 x.hamt s ≡ ok r) same found in
        let (i', at_j, through) = byte_of_find ipfs nodes 32 dj 0 root.hamt s found' in
        (
          unfold Removed in removed.1,
          get_after index' s' i' at_j (unfold Removed in removed.2)
              ∙ reads_after r s' i' (unfold Removed in removed.0) held_there at_j through,
        )

    single_before :
        (t : S) (v : C)
        → find_in ipfs nodes
            (find ipfs nodes 32 dj 1)
            dj
            0
            (held (bucket (record { key = dj; value = v } ∷ [])))
            t
          ≡ ok (some v)
    unfolding find_in bucket_get
    single_before t v = rw (eq_key_refl dj) refl

    after_single :
        (t : S)
        → ltb 1 (length b) ≡ false
        → find_in ipfs nodes
            (find ipfs nodes 32 dj 1)
            dj
            0
            (slot (after_delete dk root.hamt i b) i)
            t
          ≡ ok none
    unfolding find_in
    after_single t one = rw (one, slot-drop_slot_self root.hamt i) refl

    -- A bucket at the root that holds the single entry of `j` is dropped by a removal that returns,
    -- at every key whose digest has the same first byte, also one with another digest: the key
    -- is given back as removed, and `j`, which was there, is not found any more.
    pub remove_drops_single :
        (v : C) (a : Option C) (index' : C) (s' : S)
        → b ≡ record { key = dj; value = v } ∷ []
        → byte dj 0 ≡ some i
        → remove ipfs nodes roots digest index key s ≡ (ok (a, index'), s')
        → (get ipfs nodes roots digest index j s ≡ ok (some v))
          × (a ≡ some key)
          × (get ipfs nodes roots digest index' j s' ≡ ok none)
    remove_drops_single v a index' s' single at_j run =
        let removed = returned a index' s' run in
        (
          get_root ipfs nodes roots digest index j s root dj ej load
              ∙ find-byte ipfs nodes 32 dj 0 root.hamt s i at_j
              ∙ (rw (at_i, single) (single_before s v)),
          unfold Removed in removed.1,
          get_after index' s' i at_j (unfold Removed in removed.2)
              ∙ after_single s' (ap (λ x. ltb 1 (length x)) single),
        )
