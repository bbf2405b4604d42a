-- ===== src/Prolly/Node/Tests.antt =====
-- Runs of the node operations, and their theorems at those runs.
use rust_defluencer.Base.{ℕ, ◌≡◌, refl, List, [], ◌∷◌, none, some, ok}
use rust_defluencer.Base.Key.{nat_key}
use rust_defluencer.Prolly.Node.{
  TreeNode, binary_search, write_at, fits, insert_one, insert, pairs, merge, remove_at_place,
  remove_batch, into_search_batch,
}
use rust_defluencer.Prolly.Node.Selection.{into_search_batch_lem}
use rust_defluencer.Prolly.Node.Swaps.{hits}
use rust_defluencer.Prolly.Node.Update.{
  IsNode, lookup, written, erased, insert_lem, merge_lem, remove_batch_lem,
}

abbrev low : TreeNode ℕ ℕ
low = record { keys = 1 ∷ 5 ∷ []; values = 10 ∷ 50 ∷ [] }

abbrev high : TreeNode ℕ ℕ
high = record { keys = 5 ∷ 9 ∷ []; values = 55 ∷ 99 ∷ [] }

abbrev batch : List (ℕ × ℕ)
batch = (7, 70) ∷ (1, 11) ∷ []

low-IsNode : IsNode low
low-IsNode = record { sorted = ((refl, tt), (tt, tt)); paired = refl }

high-IsNode : IsNode high
high-IsNode = record { sorted = ((refl, tt), (tt, tt)); paired = refl }

insert_runs : insert low batch ≡ ok (record { keys = 1 ∷ 5 ∷ 7 ∷ []; values = 11 ∷ 50 ∷ 70 ∷ [] })
unfolding insert insert_one binary_search write_at fits
insert_runs = refl

remove_runs : remove_batch low (5 ∷ 6 ∷ []) ≡ ok (record { keys = 1 ∷ []; values = 10 ∷ [] })
unfolding remove_batch remove_at_place binary_search
remove_runs = refl

merge_runs : merge low high ≡ ok (record { keys = 1 ∷ 5 ∷ 9 ∷ []; values = 10 ∷ 55 ∷ 99 ∷ [] })
unfolding merge pairs insert insert_one binary_search write_at fits
merge_runs = refl

insert_lem_example :
    (node' : TreeNode ℕ ℕ) × (insert low batch ≡ ok node')
    × IsNode node'
    × ((j : ℕ) → lookup j node' ≡ written batch j (lookup j low))
insert_lem_example = insert_lem low batch low-IsNode

merge_lem_example :
    (node' : TreeNode ℕ ℕ) × (merge low high ≡ ok node')
    × IsNode node'
    × ((j : ℕ) → lookup j node' ≡ (elim (lookup j high) [ none ↦ lookup j low | some v ↦ some v ]))
merge_lem_example = merge_lem low high low-IsNode high-IsNode

remove_batch_lem_example :
    (node' : TreeNode ℕ ℕ) × (remove_batch low (5 ∷ 6 ∷ []) ≡ ok node')
    × IsNode node'
    × ((j : ℕ) → lookup j node' ≡ erased (5 ∷ 6 ∷ []) j (lookup j low))
remove_batch_lem_example = remove_batch_lem low (5 ∷ 6 ∷ []) low-IsNode

into_search_batch_lem_example :
    (node' : TreeNode ℕ ℕ) × (into_search_batch low (2 ∷ 5 ∷ []) ≡ ok node')
    × (pairs node' ≡ hits (λ b. lookup b low) (2 ∷ 5 ∷ []))
into_search_batch_lem_example =
    into_search_batch_lem low (2 ∷ 5 ∷ []) low-IsNode ((refl, tt), (tt, tt))
