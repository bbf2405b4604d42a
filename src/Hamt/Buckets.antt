-- ===== src/Hamt/Buckets.antt =====
-- Digests are told apart by their order, and a bucket reads as a finite map of its entries.
use Prim.Native.Nat.Ordering.{eq}
use rust_defluencer.Base.{
  ℕ, ◌≡◌, ◌≢◌, refl, ap, ◌↔◌, true, false, Option, none, some, List, [], ◌∷◌, arith, if◌then◌else◌,
  Bool-cases, inl, inr,
}
use rust_defluencer.LinkedData.Hamt.{
  Digest, cmp_key, eq_key, BucketEntry, bucket_get, insert_ordered, bucket_insert, bucket_remove,
}
use rust_defluencer.Hamt.{byte}

eq_of_cmp_key : (a b : Digest) → cmp_key a b ≡ eq → a ≡ b
unfolding cmp_key
eq_of_cmp_key [] [] h = refl
eq_of_cmp_key [] (y ∷ ys) h = cc
eq_of_cmp_key (x ∷ xs) [] h = cc
eq_of_cmp_key (x ∷ xs) (y ∷ ys) h = ground (arith, eq_of_cmp_key xs ys)

cmp_key_refl : (a : Digest) → cmp_key a a ≡ eq
unfolding cmp_key
cmp_key_refl [] = refl
cmp_key_refl (x ∷ xs) = ground (arith, cmp_key_refl xs)

pub eq_key_iff : (a b : Digest) → (eq_key a b ≡ true) ↔ (a ≡ b)
unfolding eq_key
eq_key_iff a b = (λ h. eq_of_cmp_key a b (ground arith), λ e. rw e (ground (arith, cmp_key_refl b)))

pub eq_key_refl : (a : Digest) → eq_key a a ≡ true
eq_key_refl a = (eq_key_iff a a).1 refl

-- Digests that differ at some byte are not equal.
pub eq_key-byte_ne : (a b : Digest) (depth : ℕ) → byte a depth ≢ byte b depth → eq_key a b ≡ false
eq_key-byte_ne a b depth h = elim (Bool-cases (eq_key a b)) [
  | inl same ↦ absurd (h (ap (λ k. byte k depth) ((eq_key_iff a b).0 same)))
  | inr other ↦ other
]

module _ {C : Type 0} where
  -- What an insertion leaves at a key: the value that was there, or else the new one.
  abbrev pub kept : C → Option C → Option C
  kept v none = some v
  kept v (some w) = some w

  -- A finite map after the insertion of `v` at `key`, read at `j`, where it read `r` before.
  abbrev pub upd : Digest → C → Digest → Option C → Option C
  upd key v j r = if eq_key j key then kept v r else r

  bucket_get-insert_ordered :
      (e : BucketEntry C) (es : List (BucketEntry C)) (j : Digest)
      → bucket_get e.key es ≡ none
      → bucket_get j (insert_ordered e es)
        ≡ (if eq_key j e.key then some e.value else bucket_get j es)
  unfolding bucket_get insert_ordered
  bucket_get-insert_ordered e [] j h = refl
  bucket_get-insert_ordered e (d ∷ es) j h = ground (
    arith,
    bucket_get-insert_ordered e es j,
    eq_key_iff j e.key,
    eq_key_iff j d.key,
    eq_key_iff e.key d.key,
  )

  bucket_get_eq :
      (es : List (BucketEntry C)) (j k : Digest)
      → eq_key j k ≡ true
      → bucket_get j es ≡ bucket_get k es
  bucket_get_eq es j k h = ap (λ d. bucket_get d es) ((eq_key_iff j k).0 h)

  -- A set that is given an entry reads as the map with the key inserted.
  pub bucket_get-bucket_insert :
      (e : BucketEntry C) (es : List (BucketEntry C)) (j : Digest)
      → bucket_get j (bucket_insert e es) ≡ upd e.key e.value j (bucket_get j es)
  unfolding bucket_insert
  bucket_get-bucket_insert e es j =
      ground (arith, bucket_get-insert_ordered e es j, bucket_get_eq es j e.key)

  -- A set that an entry was removed from.
  pub bucket_get-bucket_remove :
      (key : Digest) (es : List (BucketEntry C)) (j : Digest)
      → bucket_get j (bucket_remove key es) ≡ (if eq_key j key then none else bucket_get j es)
  unfolding bucket_get bucket_remove
  bucket_get-bucket_remove key [] j = ground arith
  bucket_get-bucket_remove key (e ∷ es) j = ground (
    arith,
    bucket_get-bucket_remove key es j,
    eq_key_iff j key,
    eq_key_iff j e.key,
    eq_key_iff key e.key,
  )

  -- Insertion after insertion, from the front of a list.
  abbrev pub upd_all : List (BucketEntry C) → Digest → Option C → Option C
  upd_all [] j r = r
  upd_all (e ∷ es) j r = upd_all es j (upd e.key e.value j r)

  upd_all-some : (es : List (BucketEntry C)) (j : Digest) (w : C) → upd_all es j (some w) ≡ some w
  upd_all-some [] j w = refl
  upd_all-some (e ∷ es) j w = ground (arith, upd_all-some es j w)

  -- Inserting the entries of a bucket one by one into nothing gives a map that reads as the bucket.
  pub upd_all-none : (es : List (BucketEntry C)) (j : Digest) → upd_all es j none ≡ bucket_get j es
  unfolding bucket_get
  upd_all-none [] j = refl
  upd_all-none (e ∷ es) j = ground (arith, upd_all-none es j, upd_all-some es j e.value)
