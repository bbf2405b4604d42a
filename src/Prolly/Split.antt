-- ===== src/Prolly/Split.antt =====
-- defluencer/src/indexing/ordered_trees/prolly/node.rs: `split`, the chunking of a node, which the
-- source writes once for leaves and once for branches with the same code. Parameters: `size` is
-- the length of the DAG-CBOR encoding of the node, `boundary` is `Config::boundary` (any
-- function here), and `scale` is the product of floats `(keys * (max_size / bytes)).floor()`.
pub mod Pieces
mod Tests
use rust_defluencer.Base.{
  ℕ, zero, suc, ◌+◌, ◌-◌, Bool, true, false, ◌&&◌, List, [], ◌∷◌, Option, none, some, if◌then◌else◌,
  ltb, leb, ◌==◌, length, get_elem?, take, drop, Result, ok, err, panic,
}
use rust_defluencer.Prolly.Node.{TreeNode}

-- Runs with fuel: `none` means that the fuel ran out.
abbrev pub and_run :
    {A B : Type 0} → Option (Result A) → (A → Option (Result B)) → Option (Result B)
and_run none f = none
and_run (some (ok a)) f = f a
and_run (some (err e)) f = some (err e)
and_run (some panic) f = some panic

module _ {K T : Type 0} where
  -- `keys.split_off(i)` and `values.split_off(i)`: what stays, and the new node.
  unfoldable pub split_off : ℕ → TreeNode K T → Result (TreeNode K T × TreeNode K T)
  split_off i node =
      if leb i (length node.keys) && leb i (length node.values)
      then ok (
        record { keys = take i node.keys; values = take i node.values },
        record { keys = drop i node.keys; values = drop i node.values },
      )
      else panic

  -- `while node.keys.len() > max_key_count { … }`, then `nodes.push(node)`. The source pushes at the
  -- end and reverses in the end; `nodes` is kept in the reversed order.
  unfoldable pub chop :
      ℕ → ℕ → TreeNode K T → List (TreeNode K T) → Option (Result (List (TreeNode K T)))
  chop zero max_key_count node nodes = none
  chop (suc f) max_key_count node nodes = elim (ltb max_key_count (length node.keys)) [
    | true ↦
        and_run (some (split_off (length node.keys - max_key_count) node))
          (λ r. chop f max_key_count r.0 (r.1 ∷ nodes))
    | false ↦ some (ok (node ∷ nodes))
  ]

-- Whether `Vec::with_capacity(capacity)` panics, for the `capacity` that is the number of keys
-- divided by `max_key_count`, rounded up, `as usize`. It is at most the number of keys where
-- `max_key_count` is not zero. Otherwise the quotient of floats is infinite, and the capacity
-- `usize::MAX`; without keys it is no number, and the capacity zero.
unfoldable pub overflows : (keys max_key_count : ℕ) → Bool
overflows zero max_key_count = false
overflows (suc n) max_key_count = max_key_count == 0

module _ {K T : Type 0} (boundary : K → T → Result Bool) where
  -- `config.boundary(node.keys[i].clone(), node.values[i])?`: an index past the end panics.
  unfoldable pub boundary_at : ℕ → TreeNode K T → Result Bool
  boundary_at i node = elim (get_elem? node.keys i) [
    | none ↦ panic
    | some key ↦ elim (get_elem? node.values i) [ none ↦ panic | some value ↦ boundary key value ]
  ]

  -- `for i in (1..node.keys.len()).rev()`, with `n` rounds left: the node that stays, and `nodes`.
  unfoldable pub cut :
      ℕ
      → ℕ
      → ℕ
      → TreeNode K T
      → List (TreeNode K T)
      → Option (Result (TreeNode K T × List (TreeNode K T)))
  cut fuel max_key_count zero node nodes = some (ok (node, nodes))
  cut fuel max_key_count (suc n) node nodes = and_run (some (boundary_at (suc n) node)) (λ b.
      elim b [
        | true ↦ and_run (some (split_off (suc n) node)) (λ r.
            and_run (chop fuel max_key_count r.1 nodes)
              (λ nodes'. cut fuel max_key_count n r.0 nodes'))
        | false ↦ cut fuel max_key_count n node nodes
      ])

  -- What `split` does once the size of the node is known.
  unfoldable pub split_nodes : ℕ → ℕ → TreeNode K T → Option (Result (List (TreeNode K T)))
  split_nodes fuel max_key_count node = elim (overflows (length node.keys) max_key_count) [
    | true ↦ some panic
    | false ↦
        and_run (cut fuel max_key_count (length node.keys - 1) node [])
          (λ r. if length r.0.keys == 0 then some (ok r.1) else chop fuel max_key_count r.0 r.1)
  ]

  -- `split`
  unfoldable pub split :
      (TreeNode K T → Result ℕ)
      → (ℕ → ℕ → ℕ → ℕ)
      → (min_size max_size fuel : ℕ) → TreeNode K T
      → Option (Result (List (TreeNode K T)))
  split size scale min_size max_size fuel node = and_run (some (size node)) (λ bytes.
      if ltb bytes min_size
      then some (ok (node ∷ []))
      else split_nodes fuel (scale (length node.keys) max_size bytes) node)
