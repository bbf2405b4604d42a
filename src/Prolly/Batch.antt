-- ===== src/Prolly/Batch.antt =====
-- defluencer/src/indexing/ordered_trees/prolly/iterators.rs: how a branch shares a batch out to its
-- children. `Search` and `Insert` have the same `next`, on keys and on keys with values: one
-- definition here, with `key_of` for the key of an item.
pub mod Shares
pub mod Remove
mod Tests
use rust_defluencer.Base.{
  ℕ, zero, suc, Bool, true, false, List, [], ◌∷◌, ◌++◌, Option, none, some, get_elem?, Result, ok,
  and_then, or_panic,
}
use rust_defluencer.Base.Key.{Key, same_key}
use rust_defluencer.Prolly.Node.{TreeNode, BranchNode, Search, found, absent, binary_search}
use rust_defluencer.Prolly.Split.{and_run}

-- The place of the child for a key that was searched: `Err(0)` has none.
unfoldable pub child_place : Search → Option ℕ
child_place (found i) = some i
child_place (absent zero) = none
child_place (absent (suc i)) = some i

-- `self.node.values.links[idx]`, where there is an index.
unfoldable pub link_at : {C : Type 0} → List C → Search → Option (Result C)
link_at links place = elim (child_place place) [
  | none ↦ none
  | some i ↦ some (or_panic (get_elem? links i))
]

unfoldable pub yielded : {B C : Type 0} → Option C → List B → Option (C × List B)
yielded none items = none
yielded (some link) [] = none
yielded (some link) (b ∷ items) = some (link, b ∷ items)

module _ {K B C : Type 0} ⦃keys : Key K⦄ ⦃cids : Key C⦄ (key_of : B → K) where
  -- The loop of `next`: what it returns, and the batch that it leaves. A key below the first one of
  -- the node is taken off the batch and dropped.
  unfoldable pub next_in :
      BranchNode K C → List B → Option C → List B → Result (Option (C × List B) × List B)
  next_in node items link [] = ok (yielded link items, [])
  next_in node items link (b ∷ batch) =
      elim (link_at node.values (binary_search (key_of b) node.keys)) [
        | none ↦ next_in node items link batch
        | some r ↦ and_then r (λ l. elim link [
          | none ↦ next_in node (items ++ b ∷ []) (some l) batch
          | some c ↦ elim (same_key c l) [
            | true ↦ next_in node (items ++ b ∷ []) (some c) batch
            | false ↦ ok (some (c, items), b ∷ batch)
          ]
        ])
      ]

  -- `Search::next` and `Insert::next`
  unfoldable pub next : BranchNode K C → List B → Result (Option (C × List B) × List B)
  next node batch = next_in node [] none batch

  -- All that the iterator yields, `search_batch(..)` and `insert_batch(..)` of a branch when they are
  -- collected; `none` where the fuel runs out.
  unfoldable pub batches : ℕ → BranchNode K C → List B → Option (Result (List (C × List B)))
  batches zero node batch = none
  batches (suc fuel) node batch = and_run (some (next node batch)) (λ r. elim r.0 [
    | none ↦ some (ok [])
    | some share ↦ and_run (batches fuel node r.1) (λ shares. some (ok (share ∷ shares)))
  ])
