-- ===== src/Prolly/Node/Update.antt =====
-- `insert`, `merge` and `remove_batch` on whole nodes: they never panic on a well-formed node, keep
-- it well formed, and do to the map that it stands for what their names say.
use mathlib.Core.Path.{subst, sym}
use rust_defluencer.Base.{
  ◌≡◌, refl, List, [], ◌∷◌, Option, none, some, arith, if◌then◌else◌, length, ok,
}
use rust_defluencer.Base.Key.{Key, same_key, ◌≺◌}
use rust_defluencer.Prolly.Node.{
  TreeNode, binary_search, write_at, erase_at, insert_one, insert, zip, pairs, merge,
  remove_at_place, remove_batch,
}
use rust_defluencer.Prolly.Node.Pairs.{
  All, IsSorted, read, read-below, binary_search-fits, binary_search-holds, write_at-IsSorted,
  read-write_at, length-write_at, erase_at-IsSorted, read-erase_at, length-erase_at,
}

module _ {K T : Type 0} ⦃o : Key K⦄ where
  -- Keys are in order and go with as many values.
  pub record IsNode (node : TreeNode K T) : Type 0 where
    pub sorted : IsSorted node.keys
    pub paired : length node.keys ≡ length node.values

  -- What a node has at a key.
  abbrev pub lookup : K → TreeNode K T → Option T
  lookup j node = read j node.keys node.values

  -- A map after the writes of a batch, from the front: the last one for a key counts.
  abbrev pub written : List (K × T) → K → Option T → Option T
  written [] j r = r
  written ((key, value) ∷ kvs) j r = written kvs j (if same_key j key then some value else r)

  abbrev pub erased : List K → K → Option T → Option T
  erased [] j r = r
  erased (key ∷ keys) j r = erased keys j (if same_key j key then none else r)

  insert_one-lem :
      (node : TreeNode K T) (key : K) (value : T)
      → IsNode node
      → (node' : TreeNode K T) × (insert_one node key value ≡ ok node')
        × IsNode node'
        × ((j : K) → lookup j node' ≡ (if same_key j key then some value else lookup j node))
  unfolding insert_one
  insert_one-lem node key value h =
      let place = binary_search key node.keys in
      (
        record { keys = write_at node.keys place key; values = write_at node.values place value },
        rw (binary_search-fits key node.keys node.values h.paired) refl,
        record {
          sorted = write_at-IsSorted key node.keys h.sorted;
          paired = length-write_at key value node.keys node.values h.paired;
        },
        λ j. read-write_at j key value node.keys node.values h.paired,
      )

  -- On a well-formed node, `insert` of any batch returns a well-formed node, in which every key of
  -- the batch has the last value that the batch gives it, and every other key has what it had.
  pub insert_lem :
      (node : TreeNode K T) (key_values : List (K × T))
      → IsNode node
      → (node' : TreeNode K T) × (insert node key_values ≡ ok node')
        × IsNode node'
        × ((j : K) → lookup j node' ≡ written key_values j (lookup j node))
  unfolding insert
  insert_lem node [] h = (node, refl, h, λ j. refl)
  insert_lem node ((key, value) ∷ kvs) h =
      let (one, ran, valid, reads) = insert_one-lem node key value h in
      let (all, ran', valid', reads') = insert_lem one kvs valid in
      (all, rw ran ran', valid', λ j. rw (reads' j, reads j) refl)

  written-zip :
      (ks : List K) (vs : List T) (j : K) (r : Option T)
      → IsSorted ks
      → length ks ≡ length vs
      → written (zip ks vs) j r ≡ (elim (read j ks vs) [ none ↦ r | some v ↦ some v ])
  unfolding zip read
  written-zip [] vs j r s h = refl
  written-zip (k ∷ ks) [] j r s h = absurd (omega arith)
  written-zip (k ∷ ks) (v ∷ vs) j r s h =
      rw (written-zip ks vs j (if same_key j k then some v else r) s.1 (omega arith))
        (ground (arith, o.eq_of_cmp j k, below))
    where
      below : j ≡ k → read j ks vs ≡ none
      below e = read-below j ks vs (subst (λ x. All (λ y. x ≺ y) ks) (sym e) s.0)

  -- Merging two well-formed nodes returns a well-formed node, which has what `other` has at the keys
  -- of `other`, and what the node had at all others.
  pub merge_lem :
      (node other : TreeNode K T)
      → IsNode node
      → IsNode other
      → (node' : TreeNode K T) × (merge node other ≡ ok node')
        × IsNode node'
        × ((j : K)
            → lookup j node' ≡ (elim (lookup j other) [ none ↦ lookup j node | some v ↦ some v ]))
  unfolding merge pairs
  merge_lem node other h g =
      let (merged, ran, valid, reads) = insert_lem node (zip other.keys other.values) h in
      (
        merged,
        ran,
        valid,
        λ j. rw (reads j) (written-zip other.keys other.values j (lookup j node) g.sorted g.paired),
      )

  -- On a well-formed node, `remove_batch` returns a well-formed node, without the keys of the batch
  -- and with what it had at every other key.
  pub remove_batch_lem :
      (node : TreeNode K T) (batch : List K)
      → IsNode node
      → (node' : TreeNode K T) × (remove_batch node batch ≡ ok node')
        × IsNode node'
        × ((j : K) → lookup j node' ≡ erased batch j (lookup j node))
  unfolding remove_batch remove_at_place
  remove_batch_lem node [] h = (node, refl, h, λ j. refl)
  remove_batch_lem node (key ∷ batch) h =
      let place = binary_search key node.keys in
      let one : TreeNode K T = record {
        keys = erase_at node.keys place;
        values = erase_at node.values place;
      } in
      let valid : IsNode one = record {
        sorted = erase_at-IsSorted key node.keys h.sorted;
        paired = length-erase_at key node.keys node.values h.paired;
      } in
      let (all, ran, valid', reads) = remove_batch_lem one batch valid in
      (
        all,
        rw (binary_search-holds key node.keys node.values h.paired) ran,
        valid',
        λ j. rw (reads j, read-erase_at j key node.keys node.values h.paired h.sorted) refl,
      )
