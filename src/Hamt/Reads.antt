-- ===== src/Hamt/Reads.antt =====
-- What it means that a node of the trie reads as another one with a key inserted, and the last step
-- of each case of `set`.
use mathlib.Core.Path.{subst}
use native.Mathlib.Decide.{ℕ_discrete}
use rust_defluencer.Base.{
  ℕ, zero, suc, ◌+◌, ◌<◌, ◌≡◌, ◌≢◌, refl, ap, sym, ◌∙◌, false, Option, none, some, List, [], ◌∷◌,
  Result, ok, err, panic, pure, arith, length, get_elem?, replicate, Post, Ensures, Ensures-bind,
  Post-imp,
}
use rust_defluencer.Ipfs.{
  Ipfs, Linked, Grows, Grows-trans, dag_put, dag_get, Grows-dag_put, dag_get-dag_put,
}
use rust_defluencer.LinkedData.Hamt.{Digest, BucketEntry, bucket, HamtNode, empty_node, bucket_get}
use rust_defluencer.Hamt.{byte, bit, Slot, empty, held, slot, find_in, find, put_node}
use rust_defluencer.Hamt.Buckets.{eq_key-byte_ne, upd, upd_all}
use rust_defluencer.Hamt.Find.{find-byte, byte_of_find, Grows-find_in, Grows-find}

pub byte-lt : (key : Digest) (depth : ℕ) {i : ℕ} → byte key depth ≡ some i → depth < 32
unfolding byte
byte-lt key depth h = ground arith

get_elem?_of_lt {ℓ} :
    {A : Type ℓ} (xs : List A) (i : ℕ) → i < length xs → (x : A) × (get_elem? xs i ≡ some x)
get_elem?_of_lt [] i h = absurd (omega arith)
get_elem?_of_lt (x ∷ xs) zero h = (x, refl)
get_elem?_of_lt (x ∷ xs) (suc i) h = get_elem?_of_lt xs i (omega arith)

byte_of_length :
    (key : Digest) (depth : ℕ) → depth < 32 → length key ≡ 32 → (i : ℕ) × (byte key depth ≡ some i)
unfolding byte
byte_of_length key depth h l =
    let (i, there) = get_elem?_of_lt key depth (omega arith) in (i, ground (arith, there))

bit-replicate : (n i : ℕ) → bit (replicate n false) i ≡ false
unfolding bit
bit-replicate zero i = refl
bit-replicate (suc n) zero = refl
bit-replicate (suc n) (suc i) = bit-replicate n i

slot-empty_node : {C : Type 0} (i : ℕ) → slot {C = C} empty_node i ≡ empty
unfolding slot empty_node
slot-empty_node i = rw (bit-replicate 256 i) refl

pub Post-Unit : {S A : Type 0} (r : Result A) (s : S) → Post (λ a t. Unit {0}) r s
Post-Unit (ok a) s = tt
Post-Unit (err e) s = tt
Post-Unit panic s = tt

module _ {C S : Type 0} (ipfs : Ipfs C S) (nodes : Linked ipfs.Block (HamtNode C)) where
  -- From `node` in `s` to `node'` in `s'`, the lookups of digests read `v` at `key` if nothing was
  -- there, and are unchanged otherwise.
  abbrev pub Reads : ℕ → Digest → C → ℕ → HamtNode C → S → HamtNode C → S → Type 0
  Reads n key v depth node s node' s' =
      (j : Digest)
      → length j ≡ 32
      → (r : Option C) → find ipfs nodes n j depth node s ≡ ok r
      → find ipfs nodes n j depth node' s' ≡ ok (upd key v j r)

  -- What `set` ensures: earlier blocks are still there, the node is stored under the identifier
  -- that is returned, and it reads as it should.
  abbrev pub Stored : ℕ → Digest → C → ℕ → HamtNode C → S → C × HamtNode C → S → Type 0
  Stored n key v depth node s r s' =
      Grows ipfs s s'
      × (dag_get ipfs nodes r.0 s' ≡ ok r.1)
      × ((depth < 32) × (0 < n))
      × Reads n key v depth node s r.1 s'

  abbrev pub AllStored : ℕ → List (BucketEntry C) → ℕ → HamtNode C → S → HamtNode C → S → Type 0
  AllStored n items depth node s node' s' =
      Grows ipfs s s'
      × ((j : Digest)
          → length j ≡ 32
          → (r : Option C) → find ipfs nodes n j depth node s ≡ ok r
          → find ipfs nodes n j depth node' s' ≡ ok (upd_all items j r))

  pub find-empty_node :
      (n : ℕ) (j : Digest) (depth : ℕ) (s : S)
      → 0 < n
      → depth < 32
      → length j ≡ 32
      → find ipfs nodes n j depth empty_node s ≡ ok none
  find-empty_node zero j depth s p h l = absurd (omega arith)
  find-empty_node (suc n) j depth s p h l =
      let (i, there) = byte_of_length j depth h l in
      rw (find-byte ipfs nodes n j depth empty_node s i there, slot-empty_node i)
        (unfold find_in in refl)

  pub put_node-stored :
      (node : HamtNode C) (s : S)
      → Ensures
          (λ r s'. Grows ipfs s s' × (dag_get ipfs nodes r.0 s' ≡ ok r.1) × (r.1 ≡ node))
          (put_node ipfs nodes node s)
  unfolding put_node
  put_node-stored node s =
      Ensures-bind (λ (cid : C) (s' : S). Unit {0})
        (λ (r : C × HamtNode C) (s' : S).
          Grows ipfs s s' × (dag_get ipfs nodes r.0 s' ≡ ok r.1) × (r.1 ≡ node))
        (dag_put ipfs nodes node) (λ cid. pure (cid, node)) s
        (Post-Unit (dag_put ipfs nodes node s).0 _)
        (λ cid put _.
          (Grows-dag_put ipfs nodes node s, dag_get-dag_put ipfs nodes node s cid put, refl))

  -- A node that differs at one index reads as it should if the lookups through that index do.
  module _ (n : ℕ) (key : Digest) (v : C) (depth : ℕ) (node node' : HamtNode C) (s s' : S) (i : ℕ)
      (grows : Grows ipfs s s') (there : byte key depth ≡ some i)
      (same : (i' : ℕ) → i ≢ i' → slot node' i' ≡ slot node i')
      (through : (j : Digest) (r : Option C)
        → length j ≡ 32
        → byte j depth ≡ some i
        → find_in ipfs nodes (find ipfs nodes n j (depth + 1)) j depth (slot node i) s ≡ ok r
        → find_in ipfs nodes (find ipfs nodes n j (depth + 1)) j depth (slot node' i) s'
          ≡ ok (upd key v j r)) where
    reads_at :
        (j : Digest) (r : Option C) (i' : ℕ)
        → length j ≡ 32
        → byte j depth ≡ some i'
        → find_in ipfs nodes (find ipfs nodes n j (depth + 1)) j depth (slot node i') s ≡ ok r
        → find_in ipfs nodes (find ipfs nodes n j (depth + 1)) j depth (slot node' i') s'
          ≡ ok (upd key v j r)
    reads_at j r i' l b found = elim (ℕ_discrete i i') [
      | yes p ↦
          subst
            (λ x.
              find_in ipfs nodes (find ipfs nodes n j (depth + 1)) j depth (slot node' x) s'
              ≡ ok (upd key v j r))
            p
            (through j r l (b ∙ ap some (sym p)) (
              subst
                (λ x.
                  find_in ipfs nodes (find ipfs nodes n j (depth + 1)) j depth (slot node x) s
                  ≡ ok r)
                (sym p) found))
      | no p ↦
          rw (same i' p, eq_key-byte_ne j key depth (λ e. p (cc (e, b, there))))
            (Grows-find_in ipfs nodes (find ipfs nodes n j (depth + 1)) j depth s s' grows r
              (λ node₁. Grows-find ipfs nodes n j (depth + 1) node₁ s s' grows r) (slot node i')
              found)
    ]

    Reads-of_slots : Reads (suc n) key v depth node s node' s'
    Reads-of_slots j l r h =
        let (i', there', found) = byte_of_find ipfs nodes n j depth node s h in
        rw (find-byte ipfs nodes n j depth node' s' i' there') (reads_at j r i' l there' found)

  pub find_in-bucket :
      (n : ℕ) (j : Digest) (depth : ℕ) (b : List (BucketEntry C)) (s : S)
      → find_in ipfs nodes (find ipfs nodes n j (depth + 1)) j depth (held (bucket b)) s
        ≡ ok (bucket_get j b)
  unfolding find_in
  find_in-bucket n j depth b s = refl

  pub bucket_read :
      (n : ℕ) (j : Digest) (depth : ℕ) (b : List (BucketEntry C)) (x : Slot C) (s : S)
      {q : Option C}
      → x ≡ held (bucket b)
      → find_in ipfs nodes (find ipfs nodes n j (depth + 1)) j depth x s ≡ ok q
      → bucket_get j b ≡ q
  bucket_read n j depth b x s e found = cc (find_in-bucket n j depth b s)

  pub empty_read :
      (n : ℕ) (j : Digest) (depth : ℕ) (x : Slot C) (s : S) {q : Option C}
      → x ≡ empty
      → find_in ipfs nodes (find ipfs nodes n j (depth + 1)) j depth x s ≡ ok q
      → none ≡ q
  empty_read n j depth x s e found = cc (at_empty)
    where
      at_empty : find_in ipfs nodes (find ipfs nodes n j (depth + 1)) j depth empty s ≡ ok none
      at_empty = unfold find_in in refl

  pub one_entry :
      (key : Digest) (v : C) (j : Digest)
      → bucket_get j (record { key = key; value = v } ∷ []) ≡ upd key v j none
  unfolding bucket_get
  one_entry key v j = refl

  -- The last step of each case: the changed node is stored.
  pub finish :
      (n : ℕ) (key : Digest) (v : C) (depth : ℕ) (node node' : HamtNode C) (i : ℕ) (s t : S)
      → byte key depth ≡ some i
      → Grows ipfs s t
      → ((i' : ℕ) → i ≢ i' → slot node' i' ≡ slot node i')
      → ((u : S)
          → Grows ipfs t u
          → (j : Digest) (r : Option C) → length j ≡ 32
          → byte j depth ≡ some i
          → find_in ipfs nodes (find ipfs nodes n j (depth + 1)) j depth (slot node i) s ≡ ok r
          → find_in ipfs nodes (find ipfs nodes n j (depth + 1)) j depth (slot node' i) u
            ≡ ok (upd key v j r))
      → Ensures (Stored (suc n) key v depth node s) (put_node ipfs nodes node' t)
  finish n key v depth node node' i s t there grows same through =
      Post-imp
        (λ (r : C × HamtNode C) (u : S).
          Grows ipfs t u × (dag_get ipfs nodes r.0 u ≡ ok r.1) × (r.1 ≡ node'))
        (Stored (suc n) key v depth node s) (put_node ipfs nodes node' t).0
        (put_node ipfs nodes node' t).1
        (λ r _ put.
          let u = (put_node ipfs nodes node' t).1 in
          let g = Grows-trans ipfs s t u grows put.0 in
          (
            g,
            put.1,
            (byte-lt key depth there, omega arith),
            subst (λ x. Reads (suc n) key v depth node s x u) (sym put.2)
                (Reads-of_slots n key v depth node node' s u i g there same (through u put.0)),
          ))
        (put_node-stored node' t)
