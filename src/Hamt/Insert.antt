-- ===== src/Hamt/Insert.antt =====
-- `set` changes what the trie reads at its key only, at every level of the recursion.
use rust_defluencer.Base.{
  ℕ, zero, suc, ◌+◌, ◌<◌, ◌≡◌, refl, ap, sym, ◌∙◌, inl, inr, Option, none, some, List, [], ◌∷◌, ok,
  Action, ◌>>=◌, ltb, arith, length, Bool-cases, Option-cases, Ensures, Post-resume, Ensures-bind,
  Post-imp, le→ltb,
}
use rust_defluencer.Ipfs.{dag_get-Grows, Ipfs, Linked, Grows, Grows-refl, Grows-trans, dag_get}
use rust_defluencer.LinkedData.Hamt.{
  Digest, BucketEntry, Element, link, bucket, HamtNode, empty_node, bucket_insert,
}
use rust_defluencer.Hamt.{
  byte, Slot, empty, missing, held, slot, add_slot, put_slot, find_in, find, put_node, set_all,
  set_in, set_key,
}
use rust_defluencer.Hamt.Slots.{
  slot-add_slot_self, slot-add_slot_ne, slot-put_slot_self, slot-put_slot_ne,
}
use rust_defluencer.Hamt.Buckets.{upd, upd_all-none, bucket_get-bucket_insert}
use rust_defluencer.Hamt.Find.{find_in-link, Grows-find}
use rust_defluencer.Hamt.Reads.{
  byte-lt, Post-Unit, Stored, AllStored, find-empty_node, find_in-bucket, bucket_read, empty_read,
  one_entry, finish,
}

module _ {C S : Type 0} (ipfs : Ipfs C S) (nodes : Linked ipfs.Block (HamtNode C)) where
  -- The recursive calls, one level down.
  module _ (n : ℕ) (next : Digest → C → ℕ → HamtNode C → Action S (C × HamtNode C))
      (ih : (key : Digest) (v : C) (depth : ℕ) (node : HamtNode C) (s : S)
        → Ensures (Stored ipfs nodes n key v depth node s) (next key v depth node s)) where
    set_all-stored :
        (items : List (BucketEntry C)) (depth : ℕ) (node : HamtNode C) (s : S)
        → Ensures
            (AllStored ipfs nodes n items depth node s)
            (set_all ipfs nodes (λ k v. next k v depth) items node s)
    unfolding set_all
    set_all-stored [] depth node s = (Grows-refl ipfs s, λ j l r h. h)
    set_all-stored (item ∷ items) depth node s =
        Ensures-bind (Stored ipfs nodes n item.key item.value depth node s)
          (AllStored ipfs nodes n (item ∷ items) depth node s) (next item.key item.value depth node)
          (λ r. set_all ipfs nodes (λ k v. next k v depth) items r.1) s
          (ih item.key item.value depth node s)
          (λ r _ one.
            let t = (next item.key item.value depth node s).1 in
            Post-imp (AllStored ipfs nodes n items depth r.1 t)
              (AllStored ipfs nodes n (item ∷ items) depth node s)
              (set_all ipfs nodes (λ k v. next k v depth) items r.1 t).0 _
              (λ node' _ rest. (
                Grows-trans ipfs s t _ one.0 rest.0,
                λ j l q h. rest.1 j l (upd item.key item.value j q) (one.3 j l q h),
              ))
              (set_all-stored items depth r.1 t))

    -- A node gets a link to the node below it that the recursive call made.
    set_below :
        (key : Digest) (v : C) (depth : ℕ) (node : HamtNode C) (i : ℕ) (d : Element C)
        (new_node : HamtNode C) (s t : S)
        → byte key depth ≡ some i
        → slot node i ≡ held d
        → Grows ipfs s t
        → ((j : Digest) (r : Option C)
            → length j ≡ 32
            → 0 < n
            → depth + 1 < 32
            → find_in ipfs nodes (find ipfs nodes n j (depth + 1)) j depth (held d) s ≡ ok r
            → find ipfs nodes n j (depth + 1) new_node t ≡ ok r)
        → Ensures (Stored ipfs nodes (suc n) key v depth node s) (
            (next key v (depth + 1) new_node >>= λ r.
            put_node ipfs nodes (put_slot node i (link r.0)))
              t)
    set_below key v depth node i d new_node s t there at_i grows below =
        Ensures-bind (Stored ipfs nodes n key v (depth + 1) new_node t)
          (Stored ipfs nodes (suc n) key v depth node s) (next key v (depth + 1) new_node)
          (λ r. put_node ipfs nodes (put_slot node i (link r.0))) t
          (ih key v (depth + 1) new_node t)
          (λ r _ st.
            let t' = (next key v (depth + 1) new_node t).1 in
            finish ipfs nodes n key v depth node (put_slot node i (link r.0)) i s t' there
              (Grows-trans ipfs s t t' grows st.0)
              (λ i' ne. slot-put_slot_ne node i i' (link r.0) d at_i ne)
              (λ u g j q l _ found.
                rw
                  (
                    slot-put_slot_self node i (link r.0) d at_i,
                    find_in-link ipfs nodes (find ipfs nodes n j (depth + 1)) j depth r.0 u r.1
                        (byte-lt key depth there) (dag_get-Grows ipfs nodes r.0 t' u r.1 g st.1),
                  )
                  (Grows-find ipfs nodes n j (depth + 1) r.1 t' u g (upd key v j q)
                    (st.3 j l q (below j q l st.2.1 st.2.0 (rw at_i at found))))))

    set_link :
        (key : Digest) (v : C) (depth : ℕ) (node : HamtNode C) (i : ℕ) (c : C) (s : S)
        → byte key depth ≡ some i
        → slot node i ≡ held (link c)
        → Ensures
            (Stored ipfs nodes (suc n) key v depth node s)
            (set_in ipfs nodes next key v depth node i (held (link c)) s)
    unfolding set_in
    set_link key v depth node i c s there at_i =
        rw (le→ltb 32 (depth + 1) (omega (arith, byte-lt key depth there))) (
          Post-resume (λ (new_node : HamtNode C) (t : S). Unit {0})
            (Stored ipfs nodes (suc n) key v depth node s) (dag_get ipfs nodes c s) s
            (λ new_node. next key v (depth + 1) new_node >>= λ r.
              put_node ipfs nodes (put_slot node i (link r.0)))
            (Post-Unit (dag_get ipfs nodes c s) s)
            (λ new_node load _.
              set_below key v depth node i (link c) new_node s s there at_i (Grows-refl ipfs s)
                (λ j r l _ _ found.
                  sym (
                    find_in-link ipfs nodes (find ipfs nodes n j (depth + 1)) j depth c s new_node
                      (byte-lt key depth there) load)
                  ∙ found)))

    set_full :
        (key : Digest) (v : C) (depth : ℕ) (node : HamtNode C) (i : ℕ) (b : List (BucketEntry C))
        (s : S)
        → byte key depth ≡ some i
        → slot node i ≡ held (bucket b)
        → Ensures
            (Stored ipfs nodes (suc n) key v depth node s)
            (set_in ipfs nodes next key v depth node i (held (bucket b)) s)
    unfolding set_in
    set_full key v depth node i b s there at_i = elim (Bool-cases (ltb (length b) 3)) [
      | inl room ↦ rw room (
          finish ipfs nodes n key v depth node
            (put_slot node i (bucket (bucket_insert (record { key = key; value = v }) b))) i s s
            there (Grows-refl ipfs s) (λ i' ne. slot-put_slot_ne node i i' _ (bucket b) at_i ne)
            (λ u g j q l _ found.
              rw
                (slot-put_slot_self node i
                  (bucket (bucket_insert (record { key = key; value = v }) b)) (bucket b) at_i)
                (find_in-bucket ipfs nodes n j depth
                    (bucket_insert (record { key = key; value = v }) b) u
                  ∙ ap ok (
                      bucket_get-bucket_insert (record { key = key; value = v }) b j
                      ∙ ap (upd key v j)
                          (bucket_read ipfs nodes n j depth b (slot node i) s at_i found)))))
      | inr full ↦ rw full (
          Ensures-bind (AllStored ipfs nodes n b (depth + 1) empty_node s)
            (Stored ipfs nodes (suc n) key v depth node s)
            (set_all ipfs nodes (λ k w. next k w (depth + 1)) b empty_node)
            (λ new_node. next key v (depth + 1) new_node >>= λ r.
              put_node ipfs nodes (put_slot node i (link r.0)))
            s (set_all-stored b (depth + 1) empty_node s)
            (λ new_node _ all.
              set_below key v depth node i (bucket b) new_node s
                (set_all ipfs nodes (λ k w. next k w (depth + 1)) b empty_node s).1 there at_i all.0
                (λ j r l p h found.
                  all.1 j l none (find-empty_node ipfs nodes n j (depth + 1) s p h l)
                  ∙ ap ok (
                      upd_all-none b j
                      ∙ bucket_read ipfs nodes n j depth b (held (bucket b)) s refl found))))
    ]

    set_empty :
        (key : Digest) (v : C) (depth : ℕ) (node : HamtNode C) (i : ℕ) (s : S)
        → byte key depth ≡ some i
        → slot node i ≡ empty
        → Ensures
            (Stored ipfs nodes (suc n) key v depth node s)
            (set_in ipfs nodes next key v depth node i empty s)
    unfolding set_in
    set_empty key v depth node i s there at_i =
        Post-resume (λ (x : HamtNode C) (t : S). Unit {0})
          (Stored ipfs nodes (suc n) key v depth node s)
          (add_slot node i (bucket (record { key = key; value = v } ∷ []))) s (put_node ipfs nodes)
          (Post-Unit (add_slot node i (bucket (record { key = key; value = v } ∷ []))) s)
          (λ node' added _.
            finish ipfs nodes n key v depth node node' i s s there (Grows-refl ipfs s)
              (λ i' ne. slot-add_slot_ne node i i' _ at_i ne added)
              (λ u g j q l _ found. rw (slot-add_slot_self node i _ added) (
                find_in-bucket ipfs nodes n j depth (record { key = key; value = v } ∷ []) u
                ∙ ap ok (
                    one_entry ipfs nodes key v j
                    ∙ ap (upd key v j)
                        (empty_read ipfs nodes n j depth (slot node i) s at_i found)))))

    set_in-Stored :
        (key : Digest) (v : C) (depth : ℕ) (node : HamtNode C) (i : ℕ) (x : Slot C) (s : S)
        → byte key depth ≡ some i
        → slot node i ≡ x
        → Ensures
            (Stored ipfs nodes (suc n) key v depth node s)
            (set_in ipfs nodes next key v depth node i x s)
    unfolding set_in
    set_in-Stored key v depth node i empty s there e = set_empty key v depth node i s there e
    set_in-Stored key v depth node i missing s there e = tt
    set_in-Stored key v depth node i (held (link c)) s there e =
        set_link key v depth node i c s there e
    set_in-Stored key v depth node i (held (bucket b)) s there e =
        set_full key v depth node i b s there e

  -- `set`, where it returns, has stored the changed node, and the trie reads as before but at the
  -- key: what was there is kept, and the value is read where nothing was.
  pub set_key-Stored :
      (n : ℕ) (key : Digest) (v : C) (depth : ℕ) (node : HamtNode C) (s : S)
      → Ensures (Stored ipfs nodes n key v depth node s) (set_key ipfs nodes n key v depth node s)
  unfolding set_key
  set_key-Stored zero key v depth node s = tt
  set_key-Stored (suc n) key v depth node s = elim (Option-cases (byte key depth)) [
    | inl gone ↦ rw (gone, set_key) tt
    | inr (i, there) ↦
        rw (there, set_key)
          (set_in-Stored n (set_key ipfs nodes n) (set_key-Stored n) key v depth node i
            (slot node i) s there refl)
  ]
