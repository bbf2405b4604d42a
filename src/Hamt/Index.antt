-- ===== src/Hamt/Index.antt =====
-- `get`, `insert` and `remove` of an index, as a client sees them through the links to its roots.
use rust_defluencer.Base.{
  and_then-returned, ◌≡◌, refl, ◌∙◌, Option, Result, ok, length, if◌then◌else◌, Ensures,
  Ensures-returned, Ensures-bind, Post-imp, and_then,
}
use rust_defluencer.Ipfs.{Ipfs, Linked, dag_put, dag_get, Grows-dag_put, dag_get-dag_put}
use rust_defluencer.LinkedData.Hamt.{Digest, eq_key, HamtNode, HamtRoot}
use rust_defluencer.Hamt.{levels, find, set_key, get, insert}
use rust_defluencer.Hamt.Buckets.{upd, kept}
use rust_defluencer.Hamt.Find.{Grows-find}
use rust_defluencer.Hamt.Reads.{Stored, Post-Unit}
use rust_defluencer.Hamt.Insert.{set_key-Stored}

module _ {C S : Type 0} (ipfs : Ipfs C S) (nodes : Linked ipfs.Block (HamtNode C))
    (roots : Linked ipfs.Block (HamtRoot C)) (digest : C → Result Digest) where
  -- `get` at a root that is there.
  pub get_root :
      (index j : C) (s : S) (root : HamtRoot C) (d : Digest)
      → digest j ≡ ok d
      → dag_get ipfs roots index s ≡ ok root
      → get ipfs nodes roots digest index j s ≡ find ipfs nodes levels d 0 root.hamt s
  unfolding get
  get_root index j s root d e r = rw (e, r) refl

  pub find_of_get :
      (index j : C) (s : S) (d : Digest) {r : Option C}
      → digest j ≡ ok d
      → get ipfs nodes roots digest index j s ≡ ok r
      → (root : HamtRoot C) × (dag_get ipfs roots index s ≡ ok root)
        × (find ipfs nodes levels d 0 root.hamt s ≡ ok r)
  unfolding get
  find_of_get index j s d {r} e h =
      let h' : and_then (dag_get ipfs roots index s)
            (λ root. find ipfs nodes levels d 0 root.hamt s)
          ≡ ok r =
        rw e at h in
      and_then-returned (dag_get ipfs roots index s)
        (λ root. find ipfs nodes levels d 0 root.hamt s) _ h'

module _ {C S : Type 0} (ipfs : Ipfs C S) (nodes : Linked ipfs.Block (HamtNode C))
    (roots : Linked ipfs.Block (HamtRoot C)) (digest : C → Result Digest)
    (digest_length : (k : C) (d : Digest) → digest k ≡ ok d → length d ≡ 32) where
  pub insert-Ensures :
      (index key value : C) (s : S) (j : C) (dk dj : Digest) (r : Option C)
      → digest key ≡ ok dk
      → digest j ≡ ok dj
      → get ipfs nodes roots digest index j s ≡ ok r
      → Ensures
          (λ index' s'. get ipfs nodes roots digest index' j s' ≡ ok (upd dk value dj r))
          (insert ipfs nodes roots digest index key value s)
  unfolding insert
  insert-Ensures index key value s j dk dj r ek ej before =
      let (root, load, found) = find_of_get ipfs nodes roots digest index j s dj ej before in
      rw (ek, load)
        (Ensures-bind (Stored ipfs nodes levels dk value 0 root.hamt s)
          (λ (index' : C) (s' : S).
            get ipfs nodes roots digest index' j s' ≡ ok (upd dk value dj r))
          (set_key ipfs nodes levels dk value 0 root.hamt)
          (λ x. dag_put ipfs roots (record root { hamt = x.1 })) s
          (set_key-Stored ipfs nodes levels dk value 0 root.hamt s)
          (λ x _ st.
            let t = (set_key ipfs nodes levels dk value 0 root.hamt s).1 in
            let root' : HamtRoot C = record root { hamt = x.1 } in
            Post-imp (λ (c : C) (u : S). Unit {0})
              (λ (index' : C) (s' : S).
                get ipfs nodes roots digest index' j s' ≡ ok (upd dk value dj r))
              (dag_put ipfs roots root' t).0 (dag_put ipfs roots root' t).1
              (λ c put _.
                get_root ipfs nodes roots digest c j _ root' dj ej
                  (dag_get-dag_put ipfs roots root' t c put)
                ∙ Grows-find ipfs nodes levels dj 0 x.1 t _ (Grows-dag_put ipfs roots root' t)
                    (upd dk value dj r) (st.3 dj (digest_length j dj ej) r found))
              (Post-Unit (dag_put ipfs roots root' t).0 _)))

  -- Where an insertion at `key` returns a new index, a lookup that succeeded in the old index
  -- succeeds in the new one. For a key with another digest the answer is the same. For a key with
  -- the same digest it is the new value if there was none before, and the value that was there
  -- before otherwise: an insertion does not replace a value.
  pub get-insert :
      (index key value : C) (s : S) (index' : C) (s' : S) (j : C) (dk dj : Digest) (r : Option C)
      → digest key ≡ ok dk
      → digest j ≡ ok dj
      → get ipfs nodes roots digest index j s ≡ ok r
      → insert ipfs nodes roots digest index key value s ≡ (ok index', s')
      → get ipfs nodes roots digest index' j s' ≡ ok (if eq_key dj dk then kept value r else r)
  get-insert index key value s index' s' j dk dj r ek ej before run =
      Ensures-returned
        (λ (c : C) (t : S). get ipfs nodes roots digest c j t ≡ ok (upd dk value dj r))
        (insert ipfs nodes roots digest index key value s) index' s'
        (insert-Ensures index key value s j dk dj r ek ej before) run
