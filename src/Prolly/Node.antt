-- ===== src/Prolly/Node.antt =====
-- defluencer/src/indexing/ordered_trees/prolly/node.rs: the nodes of prolly trees. `T` is the type
-- of what a key goes with: a value in a leaf, a link in a branch. The source writes the same code
-- twice, once for each; here each operation is one definition, and a name for each of its uses.
pub mod Pairs
pub mod Update
pub mod Swaps
pub mod Searches
pub mod Selection
mod Tests
use Prim.Native.Nat.Ordering.{lt, eq, gt}
use rust_defluencer.Base.{
  ℕ, zero, suc, ◌+◌, ◌-◌, Bool, true, false, List, [], ◌∷◌, ◌++◌, Option, none, some, if◌then◌else◌,
  ltb, leb, length, get_elem?, set, insert_at, remove_at, take, drop, Result, ok, err, panic,
  and_then, or_panic,
}
use rust_defluencer.Base.Key.{Key}

pub record TreeNode (K T : Type 0) : Type 0 where
  pub keys : List K
  pub values : List T

-- `TreeNode<K, Leaf<V>>` and `TreeNode<K, Branch>`
abbrev pub LeafNode : Type 0 → Type 0 → Type 0
LeafNode K V = TreeNode K V

abbrev pub BranchNode : Type 0 → Type 0 → Type 0
BranchNode K C = TreeNode K C

-- `TreeNode::default`
abbrev pub empty_node : {K T : Type 0} → TreeNode K T
empty_node = record { keys = []; values = [] }

-- The answer of `binary_search`: `Ok(idx)` or `Err(idx)`.
pub data Search : Type 0 where
  found : ℕ → Search
  absent : ℕ → Search

unfoldable pub after_one : Search → Search
after_one (found i) = found (suc i)
after_one (absent i) = absent (suc i)

module _ {K : Type 0} ⦃o : Key K⦄ where
  -- `keys.binary_search(&key)` of the standard library, on keys that are in order: the place of the
  -- key, or the place of the first key above it.
  unfoldable pub binary_search : K → List K → Search
  unfolding after_one
  binary_search key [] = absent 0
  binary_search key (k ∷ ks) = elim (o.cmp k key) [
    | lt ↦ after_one (binary_search key ks)
    | eq ↦ found 0
    | gt ↦ absent 0
  ]

-- The writes of `insert` at the place that was found. `self.values.elements[idx] = value` and
-- `insert(idx, value)` panic past the end of the values.
module _ {A : Type 0} where
  unfoldable pub write_at : List A → Search → A → List A
  write_at xs (found i) v = set xs i v
  write_at xs (absent i) v = insert_at xs i v

unfoldable pub fits : Search → ℕ → Bool
fits (found i) n = ltb i n
fits (absent i) n = leb i n

module _ {K T : Type 0} ⦃o : Key K⦄ where
  -- The body of the loop of `insert`.
  unfoldable pub insert_one : TreeNode K T → K → T → Result (TreeNode K T)
  insert_one node key value =
      let place = binary_search key node.keys in
      if fits place (length node.values)
      then ok (record {
        keys = write_at node.keys place key;
        values = write_at node.values place value;
      })
      else panic

  unfoldable pub insert : TreeNode K T → List (K × T) → Result (TreeNode K T)
  insert node [] = ok node
  insert node ((key, value) ∷ key_values) =
      and_then (insert_one node key value) (λ node'. insert node' key_values)

-- The pairs of a node, `keys.into_iter().zip(values.into_iter())`.
unfoldable pub zip {ℓ κ} : {A : Type ℓ} {B : Type κ} → List A → List B → List (A × B)
zip [] ys = []
zip (x ∷ xs) [] = []
zip (x ∷ xs) (y ∷ ys) = (x, y) ∷ zip xs ys

unfoldable pub pairs : {K T : Type 0} → TreeNode K T → List (K × T)
unfolding zip
pairs node = zip node.keys node.values

-- `remove(idx)` where `binary_search` found the key, and nothing where it did not.
unfoldable pub erase_at : {A : Type 0} → List A → Search → List A
erase_at xs (found i) = remove_at xs i
erase_at xs (absent i) = xs

-- `Vec::remove` panics past the end of the values.
unfoldable pub holds : Search → ℕ → Bool
holds (found i) n = ltb i n
holds (absent i) n = true

module _ {K T : Type 0} ⦃o : Key K⦄ where
  unfoldable pub merge : TreeNode K T → TreeNode K T → Result (TreeNode K T)
  merge node other = insert node (pairs other)

  -- The body of the loop of `remove_batch`.
  unfoldable pub remove_at_place : TreeNode K T → Search → Result (TreeNode K T)
  unfolding erase_at holds
  remove_at_place node place =
      if holds place (length node.values)
      then ok (record { keys = erase_at node.keys place; values = erase_at node.values place })
      else panic

  unfoldable pub remove_batch : TreeNode K T → List K → Result (TreeNode K T)
  unfolding remove_at_place
  remove_batch node [] = ok node
  remove_batch node (key ∷ batch) =
      and_then (remove_at_place node (binary_search key node.keys))
        (λ node'. remove_batch node' batch)

-- `swap`, which panics past the end.
unfoldable pub swap : {A : Type 0} → List A → ℕ → ℕ → Result (List A)
swap xs i j =
    and_then (or_panic (get_elem? xs i))
      (λ x. and_then (or_panic (get_elem? xs j)) (λ y. ok (set (set xs i y) j x)))

module _ {K T : Type 0} ⦃o : Key K⦄ where
  -- The loop of `into_search_batch`. Before the place `i` and up to the last key found, the keys are
  -- no longer in order, but those before a key of a batch in order are still below it: the answer of
  -- the source's binary search is the one here.
  unfoldable pub keep_found : TreeNode K T → ℕ → List K → Result (TreeNode K T × ℕ)
  keep_found node i [] = ok (node, i)
  keep_found node i (key ∷ batch) = elim (binary_search key node.keys) [
    | found idx ↦ and_then (swap node.keys i idx) (λ ks.
        and_then (swap node.values i idx)
          (λ vs. keep_found (record { keys = ks; values = vs }) (suc i) batch))
    | absent j ↦ keep_found node i batch
  ]

  unfoldable pub into_search_batch : TreeNode K T → List K → Result (TreeNode K T)
  into_search_batch node batch =
      and_then (keep_found node 0 batch)
        (λ r. ok (record { keys = take r.1 r.0.keys; values = take r.1 r.0.values }))
