-- ===== src/Hamt/Depth.antt =====
-- How deep `get` and `set` go: the check of the depth is never what stops them.
use rust_defluencer.Base.{ℕ, suc, ◌≡◌, refl, none, some, ok, panic, arith}
use rust_defluencer.Ipfs.{Ipfs, Linked, dag_get}
use rust_defluencer.LinkedData.Hamt.{Digest, link, HamtNode}
use rust_defluencer.Hamt.{byte, held, slot, find, set_in, set_key}
use rust_defluencer.Hamt.Find.{find-byte, find_in-link}

byte_end : (key : Digest) → byte key 32 ≡ none
unfolding byte
byte_end key = refl

module _ {C S : Type 0} (ipfs : Ipfs C S) (nodes : Linked ipfs.Block (HamtNode C)) where
  -- The lookup of `key` that meets a link at the last byte of its digest panics, for any number of
  -- levels that lets it get there: it loads the node below and reads `digest[32]`, since the check
  -- `(depth + 1) > DIGEST_LENGTH_BYTES` lets the depth 32 pass. So does the insertion.
  pub panics_below_last_byte :
      (n : ℕ) (key : Digest) (v : C) (node below : HamtNode C) (i : ℕ) (c : C) (s : S)
      → byte key 31 ≡ some i
      → slot node i ≡ held (link c)
      → dag_get ipfs nodes c s ≡ ok below
      → (find ipfs nodes (suc (suc n)) key 31 node s ≡ panic)
        × ((set_key ipfs nodes (suc (suc n)) key v 31 node s).0 ≡ panic)
  unfolding set_key set_in
  panics_below_last_byte n key v node below i c s there at_i load = (
    rw
        (
          find-byte ipfs nodes (suc n) key 31 node s i there,
          at_i,
          find_in-link ipfs nodes (find ipfs nodes (suc n) key 32) key 31 c s below (omega arith)
              load,
        )
        (unfold find in rw (byte_end key, find) refl),
    rw (there, set_key) (rw (at_i, set_in) (rw load (rw (byte_end key, set_key) refl))),
  )
