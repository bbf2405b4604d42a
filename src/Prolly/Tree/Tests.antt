-- ===== src/Prolly/Tree/Tests.antt =====
-- A batch read from a tree of two leaves below a branch, on an IPFS node in memory.
use rust_defluencer.Base.{ℕ, ◌≡◌, refl, List, [], ◌∷◌, some, ok, map, sym, subst, returned_unique}
use rust_defluencer.Base.Key.{nat_key}
use rust_defluencer.Ipfs.{Linked, dag_get}
use rust_defluencer.Ipfs.Memory.{memory}
use rust_defluencer.Prolly.Node.{LeafNode, BranchNode, pairs, zip}
use rust_defluencer.Base.Sets.{map_get}
use rust_defluencer.Prolly.Node.Update.{IsNode}
use rust_defluencer.Prolly.Node.Swaps.{hits}
use rust_defluencer.Prolly.Ipld.{TreeNodes, branch, leaf}
use rust_defluencer.Prolly.Tree.{batch_get, sorted_keys, stream_pairs}
use rust_defluencer.Prolly.Tree.Contents.{stream_pairs_lem}
use rust_defluencer.Prolly.Tree.Ordered.{Increasing}
use rust_defluencer.Prolly.Tree.Ranges.{IsOrdered, contents}
use rust_defluencer.Prolly.Tree.Reads.{get_one, IsTree, batch_get_lem}

abbrev low : LeafNode ℕ ℕ
low = record { keys = 1 ∷ 2 ∷ []; values = 10 ∷ 20 ∷ [] }

abbrev high : LeafNode ℕ ℕ
high = record { keys = 5 ∷ 6 ∷ []; values = 50 ∷ 60 ∷ [] }

abbrev top : BranchNode ℕ ℕ
top = record { keys = 1 ∷ 5 ∷ []; values = 0 ∷ 1 ∷ [] }

abbrev whole : Linked (TreeNodes ℕ ℕ ℕ) (TreeNodes ℕ ℕ ℕ)
whole = record { encode = λ t. t; decode = λ t. ok t; decode-encode = λ t. refl }

abbrev blocks : List (TreeNodes ℕ ℕ ℕ)
blocks = leaf low ∷ leaf high ∷ branch top ∷ []

low-IsNode : IsNode low
low-IsNode = record { sorted = ((refl, tt), (tt, tt)); paired = refl }

high-IsNode : IsNode high
high-IsNode = record { sorted = ((refl, tt), (tt, tt)); paired = refl }

top-IsNode : IsNode top
top-IsNode = record { sorted = ((refl, tt), (tt, tt)); paired = refl }

top_loads : dag_get memory whole 2 blocks ≡ ok (branch top)
unfolding dag_get
top_loads = refl

blocks-IsTree : IsTree memory whole 2 (branch top) blocks
unfolding IsTree dag_get
blocks-IsTree = (top-IsNode, ((leaf low, refl, low-IsNode), ((leaf high, refl, high-IsNode), tt)))

batch_get_lem_example :
    batch_get memory whole 2 2 (6 ∷ 3 ∷ 1 ∷ []) blocks
    ≡ some (
        map ok (
          hits
            (λ key. get_one memory whole 2 (branch top) key blocks)
            (sorted_keys (6 ∷ 3 ∷ 1 ∷ []))))
batch_get_lem_example =
    batch_get_lem memory whole 2 2 (branch top) (6 ∷ 3 ∷ 1 ∷ []) blocks top_loads blocks-IsTree

leaf-IsOrdered :
    (node : LeafNode ℕ ℕ) (nodes : TreeNodes ℕ ℕ ℕ)
    → ok (leaf node) ≡ ok nodes
    → IsOrdered memory whole blocks 1 nodes
leaf-IsOrdered node nodes e =
    subst (λ t. IsOrdered memory whole blocks 1 t)
      (returned_unique (ok nodes) (leaf node) nodes (sym e) refl) (unfold IsOrdered in tt)

blocks-IsOrdered : IsOrdered memory whole blocks 2 (branch top)
unfolding IsOrdered contents dag_get pairs zip
blocks-IsOrdered = (
  (
    ((λ e. cc), ((λ e. cc), tt)),
    ((refl, tt), ((refl, tt), tt)),
    (((λ e. cc), ((λ e. cc), tt)), (tt, (tt, tt)), tt),
  ),
  ((λ nodes e. leaf-IsOrdered low nodes e), ((λ nodes e. leaf-IsOrdered high nodes e), tt)),
)

stream_pairs_lem_example :
    (zs : List (ℕ × ℕ)) × (stream_pairs memory whole 2 2 blocks ≡ some (map ok zs))
    × Increasing zs
    × ((key : ℕ) → get_one memory whole 2 (branch top) key blocks ≡ map_get key zs)
stream_pairs_lem_example =
    stream_pairs_lem memory whole 2 2 (branch top) blocks top_loads blocks-IsTree blocks-IsOrdered
