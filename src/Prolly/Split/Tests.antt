-- ===== src/Prolly/Split/Tests.antt =====
-- Runs of `split`, and its theorems at those runs.
use rust_defluencer.Base.{
  ℕ, ◌≡◌, ◌≤◌, ◌<◌, ◌⊎◌, ◌*◌, ◌/◌, ◌%◌, ◌==◌, refl, [], ◌∷◌, Bool, some, Result, ok, length, arith,
}
use rust_defluencer.Prolly.Node.{TreeNode}
use rust_defluencer.Prolly.Split.{split_off, chop, boundary_at, cut, overflows, split_nodes, split}
use rust_defluencer.Prolly.Split.Pieces.{Split, split_lem}

abbrev five : TreeNode ℕ ℕ
five = record { keys = 1 ∷ 2 ∷ 3 ∷ 4 ∷ 5 ∷ []; values = 10 ∷ 20 ∷ 30 ∷ 40 ∷ 50 ∷ [] }

-- A boundary at each key divisible by 4.
abbrev by_four : ℕ → ℕ → Result Bool
by_four k v = ok (k % 4 == 0)

abbrev ten_each : TreeNode ℕ ℕ → Result ℕ
ten_each n = ok (10 * length n.keys)

abbrev scaled : ℕ → ℕ → ℕ → ℕ
scaled n max_size bytes = n * max_size / bytes

by_four_total : (k v : ℕ) → (b : Bool) × (by_four k v ≡ ok b)
by_four_total k v = (k % 4 == 0, refl)

split_runs :
    split by_four ten_each scaled 0 20 6 five
    ≡ some (
        ok (
          record { keys = 1 ∷ []; values = 10 ∷ [] }
          ∷ record { keys = 2 ∷ 3 ∷ []; values = 20 ∷ 30 ∷ [] }
          ∷ record { keys = 4 ∷ 5 ∷ []; values = 40 ∷ 50 ∷ [] }
          ∷ []))
unfolding split split_nodes overflows cut chop boundary_at split_off
split_runs = refl

split_lem_example :
    ((50 < 0) × (split by_four ten_each scaled 0 20 6 five ≡ some (ok (five ∷ []))))
    ⊎ ((0 ≤ 50) × Split by_four by_four_total (split by_four ten_each scaled 0 20 6 five) 2 five)
split_lem_example =
    split_lem by_four by_four_total ten_each scaled 0 20 6 five 50 refl (omega arith) (omega arith)
      refl
