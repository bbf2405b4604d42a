-- ===== src/Prolly/Handle.antt =====
-- defluencer/src/indexing/ordered_trees/prolly/mod.rs: `ProllyTree`, the configuration and the root
-- of a tree in memory, with `new`, `load`, `save` and `get`; and the default values of config.rs. The
-- codes of hash functions are those of the crate multihash: a parameter.
pub mod Stored
mod Tests
use rust_defluencer.Base.{
  ℕ, ◌≡◌, List, [], ◌∷◌, Option, none, some, Result, ok, err, panic, and_then, Action, pure, lift,
  read, ◌>>=◌,
}
use rust_defluencer.Base.Key.{Key}
use rust_defluencer.Ipfs.{Ipfs, Linked, dag_put, dag_get}
use rust_defluencer.Prolly.Node.{empty_node}
use rust_defluencer.Prolly.Ipld.{
  TreeNodes, leaf, Config, Strategies, threshold, HashThreshold, Codec, dag_cbor, dag_json,
  dag_jose, TreeHandle,
}
use rust_defluencer.Prolly.Tree.{batch_get}

-- The formats of the blocks of a tree. `nodes` is the one that the configuration names: `new` and
-- `get` are modelled for a format that reads back what it writes, as DAG-CBOR does. The handle and the
-- configuration have a DAG-CBOR and a DAG-JSON form; of the latter nothing is assumed, nor of how it
-- reads as DAG-CBOR.
pub record TreeCodecs (Block K V C H : Type 0) : Type 0 where
  pub nodes : Linked Block (TreeNodes K V C)
  pub handle : Linked Block (TreeHandle C)
  pub config : Linked Block (Config H)
  pub handle_json : TreeHandle C → Result Block
  pub config_json : Config H → Result Block

pub record ProllyTree (C H : Type 0) : Type 0 where
  pub config : Config H
  pub root : C

module _ {H : Type 0} (sha2_256 : H) where
  -- `HashThreshold::default`, `Strategies::default` and `Config::default`
  abbrev pub default_threshold : HashThreshold H
  default_threshold = record { chunking_factor = 67108864; multihash_code = sha2_256 }

  abbrev pub default_strategy : Strategies H
  default_strategy = threshold default_threshold

  abbrev pub default_config : Config H
  default_config = record {
    min_size = 0;
    max_size = 1048572;
    cid_version = 1;
    codec = dag_cbor;
    multihash_code = sha2_256;
    hash_length = none;
    chunking_strategy = default_strategy;
  }

  abbrev pub config_or_default : Option (Config H) → Config H
  config_or_default none = default_config
  config_or_default (some config) = config

-- `results.into_iter().collect::<Result<Vec<_>, _>>()`
unfoldable pub all_or_error : {A : Type 0} → List (Result A) → Result (List A)
all_or_error [] = ok []
all_or_error (r ∷ rs) = and_then r (λ x. and_then (all_or_error rs) (λ xs. ok (x ∷ xs)))

-- The one result, where there is one.
abbrev pub only_one : {A : Type 0} → List A → Option A
only_one [] = none
only_one (x ∷ []) = some x
only_one (x ∷ y ∷ xs) = none

-- What `get` makes of what the stream yields.
unfoldable pub collect_one : {A : Type 0} → Option (List (Result A)) → Option (Result (Option A))
collect_one none = none
collect_one (some results) = some (and_then (all_or_error results) (λ xs. ok (only_one xs)))

module _ {K V C S H : Type 0} ⦃keys : Key K⦄ ⦃cids : Key C⦄ (ipfs : Ipfs C S)
    (codecs : TreeCodecs ipfs.Block K V C H) where
  -- `ProllyTree::new`
  unfoldable pub new : H → Option (Config H) → Action S (ProllyTree C H)
  new sha2_256 config = dag_put ipfs codecs.nodes (leaf empty_node) >>= λ root.
      pure (record { config = config_or_default sha2_256 config; root = root })

  -- `dag_put(&t, codec, codec)` of ipfs-api/src/lib.rs, where DAG-JOSE is `unimplemented!()`.
  unfoldable pub put_as :
      {T : Type 0} → Codec → Linked ipfs.Block T → (T → Result ipfs.Block) → T → Action S C
  put_as dag_cbor cbor json t = dag_put ipfs cbor t
  put_as dag_json cbor json t = lift (json t) >>= λ block. ipfs.put_block block
  put_as dag_jose cbor json t = lift panic

  -- `ProllyTree::save`: in the format of the configuration.
  unfoldable pub save : ProllyTree C H → Action S C
  save tree = put_as tree.config.codec codecs.config codecs.config_json tree.config >>= λ config.
      put_as tree.config.codec codecs.handle codecs.handle_json
        (record { config = config; root = tree.root })

  -- `ProllyTree::load`: in the default format, DAG-CBOR.
  unfoldable pub load : C → Action S (ProllyTree C H)
  load cid = read (dag_get ipfs codecs.handle cid) >>= λ tree.
      read (dag_get ipfs codecs.config tree.config) >>= λ config.
      pure (record { config = config; root = tree.root })

  -- `ProllyTree::get`, with fuel for the levels of the tree.
  unfoldable pub get : ℕ → ProllyTree C H → K → S → Option (Result (Option (K × V)))
  get fuel tree key s = collect_one (batch_get ipfs codecs.nodes fuel tree.root (key ∷ []) s)
