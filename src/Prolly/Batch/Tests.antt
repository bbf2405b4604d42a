-- ===== src/Prolly/Batch/Tests.antt =====
-- A batch shared out between the children of a branch, and a key of it lost.
use rust_defluencer.Base.{ℕ, ◌≡◌, refl, List, [], ◌∷◌, some, ok, arith}
use rust_defluencer.Base.Key.{nat_key}
use rust_defluencer.Prolly.Node.{BranchNode, binary_search}
use rust_defluencer.Prolly.Node.Update.{IsNode}
use rust_defluencer.Prolly.Batch.{link_at, child_place, yielded, next_in, next, batches}
use rust_defluencer.Prolly.Batch.Shares.{Shared, batches_lem}

abbrev node : BranchNode ℕ ℕ
node = record { keys = 3 ∷ 5 ∷ []; values = 30 ∷ 50 ∷ [] }

abbrev batch : List ℕ
batch = 1 ∷ 3 ∷ 4 ∷ 7 ∷ []

node-IsNode : IsNode node
node-IsNode = record { sorted = ((refl, tt), (tt, tt)); paired = refl }

batches_runs : batches (λ key. key) 5 node batch ≡ some (ok ((30, 3 ∷ 4 ∷ []) ∷ (50, 7 ∷ []) ∷ []))
unfolding batches next next_in link_at child_place yielded binary_search
batches_runs = refl

batches_lem_example :
    (shares : List (ℕ × List ℕ)) × (batches (λ key. key) 5 node batch ≡ some (ok shares))
    × Shared (λ key. key) node batch shares
batches_lem_example = batches_lem (λ key. key) node node-IsNode 5 batch (omega arith)
