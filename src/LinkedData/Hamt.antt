-- ===== src/LinkedData/Hamt.antt =====
-- linked-data/src/indexes/hamt.rs: the nodes of the hash array mapped trie. A digest is the list
-- of its bytes; `BTreeSet<BucketEntry>` is the list of its entries in ascending order, and the
-- order and equality of entries are those of their keys. `C` is the type of content identifiers;
-- an `IPLDLink` is one.
use Prim.Native.Nat.Ordering.{lt, eq, gt}
use rust_defluencer.Base.{
  ℕ, Bool, true, false, Option, none, some, List, [], ◌∷◌, compare, Ordering, if◌then◌else◌,
  replicate, ◌^◌,
}

abbrev pub hash_algorithm_code : ℕ
hash_algorithm_code = 0x12

abbrev pub digest_length_bytes : ℕ
digest_length_bytes = 32

abbrev pub bucket_size : ℕ
bucket_size = 3

-- 2 ^ BIT_WIDTH
abbrev pub map_length_bits : ℕ
map_length_bits = 2 ^ 8

abbrev pub Digest : Type 0
Digest = List ℕ

-- The order of byte arrays.
unfoldable pub cmp_key : Digest → Digest → Ordering
cmp_key [] [] = eq
cmp_key [] (y ∷ ys) = lt
cmp_key (x ∷ xs) [] = gt
cmp_key (x ∷ xs) (y ∷ ys) = elim (compare x y) [ lt ↦ lt | eq ↦ cmp_key xs ys | gt ↦ gt ]

-- `a == b`
unfoldable pub eq_key : Digest → Digest → Bool
unfolding cmp_key
eq_key a b = elim (cmp_key a b) [ eq ↦ true | _ ↦ false ]

pub record BucketEntry (C : Type 0) : Type 0 where
  pub key : Digest
  pub value : C

pub data Element (C : Type 0) : Type 0 where
  link : C → Element C
  bucket : List (BucketEntry C) → Element C

-- `map` has one bit for each value of a byte.
pub record HamtNode (C : Type 0) : Type 0 where
  pub map : List Bool
  pub elements : List (Element C)

pub record HamtRoot (C : Type 0) : Type 0 where
  pub hash_algorithm : ℕ
  pub bucket_size : ℕ
  pub hamt : HamtNode C

module _ {C : Type 0} where
  -- `HAMTNode::default`
  unfoldable pub empty_node : HamtNode C
  empty_node = record { map = replicate map_length_bits false; elements = [] }

  -- `HAMTRoot::default`
  unfoldable pub empty_root : HamtRoot C
  unfolding empty_node
  empty_root = record {
    hash_algorithm = hash_algorithm_code;
    bucket_size = bucket_size;
    hamt = empty_node;
  }

  -- `BTreeSet::get`
  unfoldable pub bucket_get : Digest → List (BucketEntry C) → Option C
  bucket_get key [] = none
  bucket_get key (e ∷ es) = if eq_key key e.key then some e.value else bucket_get key es

  -- The entry in its place in the order.
  unfoldable pub insert_ordered : BucketEntry C → List (BucketEntry C) → List (BucketEntry C)
  insert_ordered entry [] = entry ∷ []
  insert_ordered entry (e ∷ es) = elim (cmp_key entry.key e.key) [
    | gt ↦ e ∷ insert_ordered entry es
    | _ ↦ entry ∷ e ∷ es
  ]

  -- `BTreeSet::insert`: an entry that the set already holds is left as it is.
  unfoldable pub bucket_insert : BucketEntry C → List (BucketEntry C) → List (BucketEntry C)
  unfolding insert_ordered
  bucket_insert entry es = elim (bucket_get entry.key es) [
    | some _ ↦ es
    | none ↦ insert_ordered entry es
  ]

  -- `BTreeSet::remove`
  unfoldable pub bucket_remove : Digest → List (BucketEntry C) → List (BucketEntry C)
  bucket_remove key [] = []
  bucket_remove key (e ∷ es) =
      let rest = bucket_remove key es in if eq_key key e.key then rest else e ∷ rest
