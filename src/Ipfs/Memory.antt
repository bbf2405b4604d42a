-- ===== src/Ipfs/Memory.antt =====
-- An IPFS node that keeps its blocks in a list, to run the models on. Its identifiers are the places
-- in the list.
use rust_defluencer.Base.{
  ℕ, ◌≡◌, refl, ap, none, some, List, [], ◌∷◌, ◌++◌, Result, ok, err, ipfs_api, Option, length,
  get_elem?, get_elem?-append, get_elem?-append_end,
}
use rust_defluencer.Ipfs.{Ipfs}

module _ {B : Type 0} where
  abbrev pub found : Option B → Result B
  found none = err ipfs_api
  found (some b) = ok b

  found-eq-ok : (o : Option B) (b : B) → found o ≡ ok b → o ≡ some b
  found-eq-ok none b h = cc
  found-eq-ok (some a) b h = cc

  pub get_after_put :
      (b : B) (s : List B) (c : ℕ) → ok (length s) ≡ ok c → found (get_elem? (s ++ b ∷ []) c) ≡ ok b
  get_after_put b s c h = let e : c ≡ length s = cc in rw (e, get_elem?-append_end s b) refl

  pub put_keeps_old :
      (b : B) (s : List B) (c : ℕ) (b' : B)
      → found (get_elem? s c) ≡ ok b'
      → found (get_elem? (s ++ b ∷ []) c) ≡ ok b'
  put_keeps_old b s c b' h =
      ap found (get_elem?-append s (b ∷ []) c (found-eq-ok (get_elem? s c) b' h))

  abbrev pub memory : Ipfs ℕ (List B)
  memory = record {
    Block = B;
    put_block = λ b s. (ok (length s), s ++ b ∷ []);
    get_block = λ c s. found (get_elem? s c);
    get-put = get_after_put;
    put_keeps = put_keeps_old;
  }
