-- ===== src/Prolly/Batch/Remove.antt =====
-- defluencer/src/indexing/ordered_trees/prolly/iterators.rs: `Remove`, how a branch shares out the
-- keys to remove. The source changes the node as it goes; here each step gives back the node.
use Prim.Native.Nat.Ordering.{lt}
use rust_defluencer.Base.{
  ℕ, zero, suc, Bool, true, false, not, ◌&&◌, ◌||◌, List, [], ◌∷◌, ◌++◌, Option, none, some,
  if◌then◌else◌, get_elem?, remove_at, Result, ok, and_then, or_panic,
}
use rust_defluencer.Base.Key.{Key, same_key}
use rust_defluencer.Prolly.Node.{BranchNode, Search, found, absent, binary_search}
use rust_defluencer.Prolly.Split.{and_run}

-- `(idx, remove)`, where the key is not below all of the node.
unfoldable pub removal_place : Search → Option (ℕ × Bool)
removal_place (found i) = some (i, true)
removal_place (absent zero) = none
removal_place (absent (suc i)) = some (i, false)

-- `range`: the bounds `Included(key)` and `Excluded(key)`, `none` for `Unbounded`.
pub record Window (K : Type 0) : Type 0 where
  pub lower : Option K
  pub upper : Option K

-- The variables of `next`, and the node.
pub record Progress (K C : Type 0) : Type 0 where
  pub node : BranchNode K C
  pub window : Option (Window K)
  pub links : List C
  pub keys : List K

-- `keys.is_empty()`
unfoldable pub none_in : {A : Type 0} → List A → Bool
none_in [] = true
none_in (x ∷ xs) = false

module _ {K : Type 0} ⦃order : Key K⦄ where
  -- `links.contains(&link)`
  unfoldable pub has_item : K → List K → Bool
  has_item x [] = false
  has_item x (y ∷ ys) = same_key y x || has_item x ys

  -- `if !links.contains(&link) { links.push(link) }`
  unfoldable pub push_new : List K → K → List K
  push_new xs x = if has_item x xs then xs else xs ++ x ∷ []

  unfoldable pub is_below : K → K → Bool
  is_below x y = elim (order.cmp x y) [ lt ↦ true | _ ↦ false ]

  unfoldable pub above_lower : Option K → K → Bool
  above_lower none key = true
  above_lower (some bound) key = not (is_below key bound)

  unfoldable pub below_upper : Option K → K → Bool
  below_upper none key = true
  below_upper (some bound) key = is_below key bound

  -- `range.contains(&batch_key)`
  unfoldable pub in_window : Window K → K → Bool
  in_window w key = above_lower w.lower key && below_upper w.upper key

  -- `hb.as_ref() == Bound::Excluded(&key)`
  unfoldable pub is_upper : Option K → K → Bool
  is_upper none key = false
  is_upper (some bound) key = same_key bound key

  -- The lower bound of the first range: `self.node.keys[i]`.
  unfoldable pub lower_bound : List K → ℕ → Bool → Result (Option K)
  lower_bound ks zero remove = ok none
  lower_bound ks (suc i) remove =
      and_then (or_panic (get_elem? ks (if remove then i else suc i))) (λ k. ok (some k))

  -- `range`, set where it is not.
  unfoldable pub first_window : Option (Window K) → List K → ℕ → Bool → Result (Window K)
  first_window (some w) ks i remove = ok w
  first_window none ks i remove =
      and_then (lower_bound ks i remove)
        (λ low. ok (record { lower = low; upper = get_elem? ks (suc i) }))

  -- The range that has the key, moved by one where the key is the upper bound and is removed; none
  -- where the share ends.
  unfoldable pub move_window : Window K → List K → ℕ → Bool → K → Result (Option (Window K))
  move_window w ks i remove key = elim (in_window w key) [
    | true ↦ ok (some w)
    | false ↦ elim remove [
      | false ↦ ok none
      | true ↦ and_then (or_panic (get_elem? ks i)) (λ k.
          if is_upper w.upper k
          then ok (some (record { lower = w.lower; upper = get_elem? ks (suc i) }))
          else ok none)
    ]
  ]

-- `remove(idx).unwrap()`
unfoldable pub take_out : {A : Type 0} → List A → ℕ → Result (A × List A)
take_out xs i = and_then (or_panic (get_elem? xs i)) (λ x. ok (x, remove_at xs i))

module _ {C : Type 0} ⦃cids : Key C⦄ where
  -- The link to the node before, for merging.
  unfoldable pub push_before : List C → List C → ℕ → Result (List C)
  push_before links found_links zero = ok found_links
  push_before links found_links (suc i) =
      and_then (or_panic (get_elem? links i)) (λ link. ok (push_new found_links link))

module _ {K C : Type 0} ⦃order : Key K⦄ ⦃cids : Key C⦄ where
  -- From where the key is taken off the batch, to the end of the loop's body.
  unfoldable pub take_key : Progress K C → Window K → ℕ → Bool → K → Result (Progress K C)
  take_key p w i false key = and_then (or_panic (get_elem? p.node.values i)) (λ link. ok (record {
    node = p.node;
    window = some w;
    links = push_new p.links link;
    keys = p.keys ++ key ∷ [];
  }))
  take_key p w i true key = and_then (push_before p.node.values p.links i) (λ links.
      and_then (take_out p.node.keys i) (λ ks. and_then (take_out p.node.values i) (λ vs.
        ok (record {
          node = record { keys = ks.1; values = vs.1 };
          window = some w;
          links = push_new links vs.0;
          keys = p.keys ++ key ∷ [];
        }))))

  -- A key below all of the node goes with the share where it has begun, and is dropped otherwise.
  unfoldable pub take_low : Progress K C → K → Progress K C
  take_low p key = record {
    node = p.node;
    window = p.window;
    links = p.links;
    keys = if none_in p.keys then p.keys else p.keys ++ key ∷ [];
  }

  -- The body of the loop; none where it returns and leaves the key on the batch.
  unfoldable pub removal_step : Progress K C → K → Result (Option (Progress K C))
  removal_step p key = elim (removal_place (binary_search key p.node.keys)) [
    | none ↦ ok (some (take_low p key))
    | some (i, remove) ↦ and_then (first_window p.window p.node.keys i remove) (λ w.
        and_then (move_window w p.node.keys i remove key) (λ moved. elim moved [
          | none ↦ ok none
          | some w' ↦ and_then (take_key p w' i remove key) (λ p'. ok (some p'))
        ]))
  ]

  -- The loop of `next`: what it returns, the node and the batch that it leaves.
  unfoldable pub next_removal_in :
      Progress K C → List K → Result (Option (List C × List K) × (BranchNode K C × List K))
  next_removal_in p [] =
      ok (if none_in p.links || none_in p.keys then none else some (p.links, p.keys), (p.node, []))
  next_removal_in p (key ∷ batch) = and_then (removal_step p key) (λ moved. elim moved [
    | none ↦ ok (some (p.links, p.keys), (p.node, key ∷ batch))
    | some p' ↦ next_removal_in p' batch
  ])

  -- `Remove::next`
  unfoldable pub next_removal :
      BranchNode K C → List K → Result (Option (List C × List K) × (BranchNode K C × List K))
  next_removal node batch =
      next_removal_in (record { node = node; window = none; links = []; keys = [] }) batch

  -- All that the iterator yields, and the node that it leaves; `none` where the fuel runs out.
  unfoldable pub removals :
      ℕ → BranchNode K C → List K → Option (Result (List (List C × List K) × BranchNode K C))
  removals zero node batch = none
  removals (suc fuel) node batch = and_run (some (next_removal node batch)) (λ r. elim r.0 [
    | none ↦ some (ok ([], r.1.0))
    | some share ↦
        and_run (removals fuel r.1.0 r.1.1) (λ shares. some (ok (share ∷ shares.0, shares.1)))
  ])
