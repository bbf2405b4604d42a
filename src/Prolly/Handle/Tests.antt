-- ===== src/Prolly/Handle/Tests.antt =====
-- A new tree, saved and loaded again on an IPFS node in memory.
use rust_defluencer.Base.{ℕ, ◌≡◌, refl, List, [], ◌∷◌, none, some, Result, ok, err, decode}
use rust_defluencer.Base.Key.{nat_key}
use rust_defluencer.Ipfs.{dag_put, dag_get}
use rust_defluencer.Ipfs.Memory.{memory}
use rust_defluencer.Prolly.Node.{LeafNode}
use rust_defluencer.Prolly.Ipld.{TreeNodes, leaf, Config, TreeHandle}
use rust_defluencer.Prolly.Tree.Reads.{get_one, IsTree}
use rust_defluencer.Prolly.Handle.{
  TreeCodecs, ProllyTree, default_config, new, put_as, save, load, get,
}
use rust_defluencer.Prolly.Handle.Stored.{load-save, get_lem, with_key}

data Block : Type 0 where
  of_nodes : TreeNodes ℕ ℕ ℕ → Block
  of_handle : TreeHandle ℕ → Block
  of_config : Config ℕ → Block

abbrev to_nodes : Block → Result (TreeNodes ℕ ℕ ℕ)
to_nodes (of_nodes b) = ok b
to_nodes _ = err decode

abbrev to_handle : Block → Result (TreeHandle ℕ)
to_handle (of_handle b) = ok b
to_handle _ = err decode

abbrev to_config : Block → Result (Config ℕ)
to_config (of_config b) = ok b
to_config _ = err decode

abbrev codecs : TreeCodecs Block ℕ ℕ ℕ ℕ
codecs = record {
  nodes = record { encode = of_nodes; decode = to_nodes; decode-encode = λ t. refl };
  handle = record { encode = of_handle; decode = to_handle; decode-encode = λ t. refl };
  config = record { encode = of_config; decode = to_config; decode-encode = λ t. refl };
  handle_json = λ t. err decode;
  config_json = λ t. err decode;
}

-- 18 is the code of SHA2-256.
abbrev empty_tree : ProllyTree ℕ ℕ
empty_tree = record { config = default_config 18; root = 0 }

abbrev created : List Block
created = (new memory codecs 18 none []).1

abbrev saved : List Block
saved = (save memory codecs empty_tree created).1

save_runs : save memory codecs empty_tree created ≡ (ok 2, saved)
unfolding new save put_as dag_put
save_runs = refl

load-save_example : load memory codecs 2 saved ≡ (ok empty_tree, saved)
load-save_example = load-save memory codecs empty_tree created saved 2 refl save_runs

abbrev small : LeafNode ℕ ℕ
small = record { keys = 1 ∷ 2 ∷ []; values = 10 ∷ 20 ∷ [] }

small-IsTree : IsTree memory codecs.nodes 1 (leaf small) (of_nodes (leaf small) ∷ [])
unfolding IsTree
small-IsTree = record { sorted = ((refl, tt), (tt, tt)); paired = refl }

small_loads : dag_get memory codecs.nodes 0 (of_nodes (leaf small) ∷ []) ≡ ok (leaf small)
unfolding dag_get
small_loads = refl

get_lem_example :
    get memory codecs 1 empty_tree 2 (of_nodes (leaf small) ∷ [])
    ≡ some (
        ok (
          with_key memory codecs 2
            (get_one memory codecs.nodes 1 (leaf small) 2 (of_nodes (leaf small) ∷ []))))
get_lem_example =
    get_lem memory codecs 1 empty_tree (leaf small) 2 (of_nodes (leaf small) ∷ []) small_loads
      small-IsTree
