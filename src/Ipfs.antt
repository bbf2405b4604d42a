-- ===== src/Ipfs.antt =====
-- ipfs-api/src/lib.rs: `IpfsService::dag_put` and `IpfsService::dag_get` are requests to an IPFS
-- node, which is a service outside the repository. It is a parameter: what the node stores, and
-- that it stores by content.
pub mod Memory
pub mod Growing
use rust_defluencer.Base.{
  Option, none, some, ◌≡◌, Result, ok, and_then, and_then-returned, Action, Ensures, Ensures-intro,
}

-- A node that holds blocks, in a state `S`, under identifiers `C`.
pub record Ipfs (C S : Type 0) : Type 1 where
  pub Block : Type 0
  pub put_block : Block → Action S C
  pub get_block : C → S → Result Block
  -- A block that was put can be read back.
  pub get-put :
      (b : Block) (s : S) (c : C) → (put_block b s).0 ≡ ok c → get_block c (put_block b s).1 ≡ ok b
  -- Putting a block, also when that fails, loses no other one.
  pub put_keeps :
      (b : Block) (s : S) (c : C) (b' : Block)
      → get_block c s ≡ ok b'
      → get_block c (put_block b s).1 ≡ ok b'

-- The codec of one type of the crate `linked-data` (its serde implementation, as a DAG block).
pub record Linked (Block T : Type 0) : Type 0 where
  pub encode : T → Block
  pub decode : Block → Result T
  pub decode-encode : (t : T) → decode (encode t) ≡ ok t

module _ {C S : Type 0} (ipfs : Ipfs C S) where
  -- `s'` still holds all that `s` holds.
  abbrev pub Grows : S → S → Type 0
  Grows s s' = (c : C) (b : ipfs.Block) → ipfs.get_block c s ≡ ok b → ipfs.get_block c s' ≡ ok b

  pub Grows-refl : (s : S) → Grows s s
  Grows-refl s c b h = h

  pub Grows-trans : (s t u : S) → Grows s t → Grows t u → Grows s u
  Grows-trans s t u p q c b h = q c b (p c b h)

module _ {C S T : Type 0} (ipfs : Ipfs C S) (linked : Linked ipfs.Block T) where
  unfoldable pub dag_put : T → Action S C
  dag_put t = ipfs.put_block (linked.encode t)

  unfoldable pub dag_get : C → S → Result T
  dag_get c s = and_then (ipfs.get_block c s) linked.decode

  pub Grows-dag_put : (t : T) (s : S) → Grows ipfs s (dag_put t s).1
  unfolding dag_put
  Grows-dag_put t s c b h = ipfs.put_keeps (linked.encode t) s c b h

  pub dag_get-dag_put :
      (t : T) (s : S) (c : C) → (dag_put t s).0 ≡ ok c → dag_get c (dag_put t s).1 ≡ ok t
  unfolding dag_put dag_get
  dag_get-dag_put t s c h = rw (ipfs.get-put (linked.encode t) s c h) (linked.decode-encode t)

  pub dag_get-Grows :
      (c : C) (s s' : S) (t : T) → Grows ipfs s s' → dag_get c s ≡ ok t → dag_get c s' ≡ ok t
  unfolding dag_get
  dag_get-Grows c s s' t g h =
      let (b, e, d) = and_then-returned (ipfs.get_block c s) linked.decode t h in rw (g c b e) d

-- `Some(ipld) => dag_get(ipld.link)`, and a value where there is no link.
abbrev pub get_or :
    {C S T : Type 0} (ipfs : Ipfs C S) → Linked ipfs.Block T → Result T → Option C → S → Result T
get_or ipfs linked other none s = other
get_or ipfs linked other (some c) s = dag_get ipfs linked c s

module _ {C S T : Type 0} (ipfs : Ipfs C S) (linked : Linked ipfs.Block T) where
  pub get_or-Grows :
      (d t : T) (o : Option C) (s s' : S)
      → Grows ipfs s s'
      → get_or ipfs linked (ok d) o s ≡ ok t
      → get_or ipfs linked (ok d) o s' ≡ ok t
  get_or-Grows d t none s s' g h = h
  get_or-Grows d t (some c) s s' g h = dag_get-Grows ipfs linked c s s' t g h

  pub dag_put-Ensures :
      (t : T) (s : S)
      → Ensures
          (λ c s'. (dag_get ipfs linked c s' ≡ ok t) × Grows ipfs s s')
          (dag_put ipfs linked t s)
  dag_put-Ensures t s =
      Ensures-intro (λ (c : C) (s' : S). (dag_get ipfs linked c s' ≡ ok t) × Grows ipfs s s')
        (dag_put ipfs linked t s)
        (λ c put. (dag_get-dag_put ipfs linked t s c put, Grows-dag_put ipfs linked t s))
