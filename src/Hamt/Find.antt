-- ===== src/Hamt/Find.antt =====
-- What `get` reads from the trie depends on the blocks that it reaches only.
use rust_defluencer.Base.{
  ℕ, zero, suc, ◌+◌, ◌≡◌, refl, Option, some, Result, ok, arith, Bool-cases, inl, inr, ltb,
  and_then, and_then-returned, Option-cases, le→ltb, ◌<◌,
}
use rust_defluencer.Ipfs.{Ipfs, Linked, Grows, dag_get, dag_get-Grows}
use rust_defluencer.LinkedData.Hamt.{Digest, link, bucket, HamtNode}
use rust_defluencer.Hamt.{byte, Slot, empty, missing, held, slot, find_in, find}

module _ {C S : Type 0} (ipfs : Ipfs C S) (nodes : Linked ipfs.Block (HamtNode C)) where
  -- `find` at a byte that is there.
  pub find-byte :
      (n : ℕ) (key : Digest) (depth : ℕ) (node : HamtNode C) (s : S) (i : ℕ)
      → byte key depth ≡ some i
      → find ipfs nodes (suc n) key depth node s
        ≡ find_in ipfs nodes (find ipfs nodes n key (depth + 1)) key depth (slot node i) s
  unfolding find
  find-byte n key depth node s i e = rw (e, find)

  -- `find` on a link that is there.
  pub find_in-link :
      (next : HamtNode C → S → Result (Option C)) (key : Digest) (depth : ℕ) (c : C) (s : S)
      (node : HamtNode C)
      → depth < 32
      → dag_get ipfs nodes c s ≡ ok node
      → find_in ipfs nodes next key depth (held (link c)) s ≡ next node s
  unfolding find_in
  find_in-link next key depth c s node h e = rw (le→ltb 32 (depth + 1) (omega arith), e) refl

  -- A lookup that succeeds found a byte to go by.
  pub byte_of_find :
      (n : ℕ) (key : Digest) (depth : ℕ) (node : HamtNode C) (s : S) {r : Option C}
      → find ipfs nodes (suc n) key depth node s ≡ ok r
      → (i : ℕ) × (byte key depth ≡ some i)
        × (find_in ipfs nodes (find ipfs nodes n key (depth + 1)) key depth (slot node i) s ≡ ok r)
  unfolding find
  byte_of_find n key depth node s h = elim (Option-cases (byte key depth)) [
    | inl gone ↦ absurd (ground (arith, gone))
    | inr (i, there) ↦ (i, there, rw (there, find) at h)
  ]

  pub Grows-find_in :
      (next : HamtNode C → S → Result (Option C)) (key : Digest) (depth : ℕ) (s s' : S)
      → Grows ipfs s s'
      → (r : Option C) → ((node : HamtNode C) → next node s ≡ ok r → next node s' ≡ ok r)
      → (x : Slot C) → find_in ipfs nodes next key depth x s ≡ ok r
      → find_in ipfs nodes next key depth x s' ≡ ok r
  unfolding find_in
  Grows-find_in next key depth s s' g r keep empty e = e
  Grows-find_in next key depth s s' g r keep missing e = cc
  Grows-find_in next key depth s s' g r keep (held (bucket b)) e = e
  Grows-find_in next key depth s s' g r keep (held (link c)) e =
      elim (Bool-cases (ltb 32 (depth + 1))) [
        | inl deep ↦ absurd (ground (arith, deep))
        | inr fine ↦
            let e' : and_then (dag_get ipfs nodes c s) (λ node. next node s) ≡ ok r =
              rw fine at e in
            let (node, load, found) =
              and_then-returned (dag_get ipfs nodes c s) (λ node. next node s) _ e' in
            rw (fine, dag_get-Grows ipfs nodes c s s' node g load) (keep node found)
      ]

  -- A lookup that succeeds reads the same after any further blocks were stored.
  pub Grows-find :
      (n : ℕ) (key : Digest) (depth : ℕ) (node : HamtNode C) (s s' : S)
      → Grows ipfs s s'
      → (r : Option C) → find ipfs nodes n key depth node s ≡ ok r
      → find ipfs nodes n key depth node s' ≡ ok r
  unfolding find
  Grows-find zero key depth node s s' g r h = cc
  Grows-find (suc n) key depth node s s' g r h =
      let (i, there, found) = byte_of_find n key depth node s h in
      rw (find-byte n key depth node s' i there) (
        Grows-find_in (find ipfs nodes n key (depth + 1)) key depth s s' g r
          (λ node'. Grows-find n key (depth + 1) node' s s' g r) (slot node i) found)
