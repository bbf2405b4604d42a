-- ===== src/Prolly/Ipld.antt =====
-- defluencer/src/indexing/ordered_trees/prolly/deserialization.rs: the nodes, the configuration and
-- the handle of prolly trees as IPLD values (the types of config.rs, and `Codec` of
-- ipfs-api/src/responses.rs). The crate libipld_core gives the type of IPLD values and its
-- conversions, and the crate multihash the codes of hash functions: parameters.
pub mod RoundTrip
mod Tests
use Prim.Native.String.{String}
use text.Mathlib.Text.{◌==◌ as str_eq}
use rust_defluencer.Base.{
  ℕ, ◌≡◌, Bool, true, false, List, [], ◌∷◌, Option, none, some, if◌then◌else◌, ◌==◌, map, Result,
  ok, err, panic, and_then, Error, unknown_value_type, unknown_key_type, unknown_chunking_strategy,
  unknown_codec, ipld, decode,
}
use rust_defluencer.Prolly.Node.{TreeNode, LeafNode, BranchNode}

-- IPLD values `I` with links `C` and hash codes `H`: a constructor for each kind, and the
-- conversion back, which gives back what the constructor was given.
pub record Ipld (I C H : Type 0) : Type 0 where
  pub of_bool : Bool → I
  pub of_integer : ℕ → I
  pub of_link : C → I
  pub of_list : List I → I
  pub of_map : List (String × I) → I
  pub null : I
  pub to_bool : I → Result Bool
  pub to_integer : I → Result ℕ
  pub to_option_integer : I → Result (Option ℕ)
  pub to_link : I → Result C
  pub to_list : I → Result (List I)
  pub to_map : I → Result (List (String × I))
  pub code_number : H → ℕ
  pub code_of : ℕ → Result H
  pub to_bool-of_bool : (b : Bool) → to_bool (of_bool b) ≡ ok b
  pub to_integer-of_integer : (n : ℕ) → to_integer (of_integer n) ≡ ok n
  pub to_option-of_integer : (n : ℕ) → to_option_integer (of_integer n) ≡ ok (some n)
  pub to_option-null : to_option_integer null ≡ ok none
  pub to_link-of_link : (c : C) → to_link (of_link c) ≡ ok c
  pub to_list-of_list : (xs : List I) → to_list (of_list xs) ≡ ok xs
  pub to_map-of_map : (m : List (String × I)) → to_map (of_map m) ≡ ok m
  pub code_of-code_number : (h : H) → code_of (code_number h) ≡ ok h

-- The bounds `Into<Ipld>` and `TryFrom<Ipld>` of the traits `Key` and `Value`.
pub record Convert (I T : Type 0) : Type 0 where
  pub into : T → I
  pub try_from : I → Option T
  pub try_from-into : (t : T) → try_from (into t) ≡ some t

pub data TreeNodes (K V C : Type 0) : Type 0 where
  branch : BranchNode K C → TreeNodes K V C
  leaf : LeafNode K V → TreeNodes K V C

-- A loop of conversions, which stops at the first that fails.
unfoldable pub convert_all : {A B : Type 0} → (A → Result B) → List A → Result (List B)
convert_all f [] = ok []
convert_all f (x ∷ xs) = and_then (f x) (λ y. and_then (convert_all f xs) (λ ys. ok (y ∷ ys)))

abbrev pub or_error : {A : Type 0} → Error → Option A → Result A
or_error e none = err e
or_error e (some a) = ok a

module _ {I C H K V : Type 0} (format : Ipld I C H) (keys : Convert I K)
    (values : Convert I V) where
  -- `From<TreeNodes<K, V>> for Ipld`
  unfoldable pub nodes_to_ipld : TreeNodes K V C → I
  nodes_to_ipld (branch node) = format.of_list (
      format.of_bool false
      ∷ format.of_list (map keys.into node.keys)
      ∷ format.of_list (map format.of_link node.values)
      ∷ [])
  nodes_to_ipld (leaf node) = format.of_list (
      format.of_bool true
      ∷ format.of_list (map keys.into node.keys)
      ∷ format.of_list (map values.into node.values)
      ∷ [])

  -- The rest of the decoding, once the three parts are known.
  unfoldable pub build_nodes : Bool → List K → List I → Result (TreeNodes K V C)
  build_nodes true ks is =
      and_then (convert_all (λ i. or_error unknown_value_type (values.try_from i)) is)
        (λ elements. ok (leaf (record { keys = ks; values = elements })))
  build_nodes false ks is =
      and_then (convert_all format.to_link is)
        (λ links. ok (branch (record { keys = ks; values = links })))

  unfoldable pub nodes_of_parts : List I → Result (TreeNodes K V C)
  nodes_of_parts (is_leaf ∷ key_list ∷ value_list ∷ []) =
      and_then (format.to_list value_list) (λ is. and_then (format.to_list key_list) (λ js.
        and_then (format.to_bool is_leaf) (λ b.
          and_then (convert_all (λ i. or_error unknown_key_type (keys.try_from i)) js)
            (λ ks. build_nodes b ks is))))
  nodes_of_parts _ = err decode

  -- `TryFrom<Ipld> for TreeNodes<K, V>`
  unfoldable pub nodes_of_ipld : I → Result (TreeNodes K V C)
  nodes_of_ipld i = and_then (format.to_list i) nodes_of_parts

-- `Codec`, with its number.
pub data Codec : Type 0 where
  dag_cbor dag_jose dag_json : Codec

abbrev pub codec_number : Codec → ℕ
codec_number dag_cbor = 0x71
codec_number dag_jose = 0x85
codec_number dag_json = 0x129

-- `Codec::from_i128`
abbrev pub codec_of : ℕ → Option Codec
codec_of n =
    if n == 0x71
    then some dag_cbor
    else if n == 0x85
    then some dag_jose
    else if n == 0x129
    then some dag_json
    else none

pub record HashThreshold (H : Type 0) : Type 0 where
  pub chunking_factor : ℕ
  pub multihash_code : H

pub data Strategies (H : Type 0) : Type 0 where
  threshold : HashThreshold H → Strategies H

pub record Config (H : Type 0) : Type 0 where
  pub min_size : ℕ
  pub max_size : ℕ
  pub cid_version : ℕ
  pub codec : Codec
  pub multihash_code : H
  pub hash_length : Option ℕ
  pub chunking_strategy : Strategies H

-- `Tree`, the handle that `save` stores.
pub record TreeHandle (C : Type 0) : Type 0 where
  pub config : C
  pub root : C

-- The last entry of a map, `pop_last`.
abbrev pub last_entry : {A : Type 0} → List A → Option A
last_entry [] = none
last_entry (x ∷ []) = some x
last_entry (x ∷ y ∷ ys) = last_entry (y ∷ ys)

module _ {I C H : Type 0} (format : Ipld I C H) where
  unfoldable pub strategy_to_ipld : Strategies H → I
  strategy_to_ipld (threshold t) = format.of_map (
      (
        "hashThreshold",
        format.of_list (
            format.of_integer t.chunking_factor
            ∷ format.of_integer (format.code_number t.multihash_code)
            ∷ []),
      )
      ∷ [])

  unfoldable pub hash_length_to_ipld : Option ℕ → I
  hash_length_to_ipld none = format.null
  hash_length_to_ipld (some n) = format.of_integer n

  -- `From<Config> for Ipld`
  unfoldable pub config_to_ipld : Config H → I
  config_to_ipld c = format.of_list (
      format.of_integer c.min_size
      ∷ format.of_integer c.max_size
      ∷ format.of_integer c.cid_version
      ∷ format.of_integer (codec_number c.codec)
      ∷ format.of_integer (format.code_number c.multihash_code)
      ∷ hash_length_to_ipld c.hash_length
      ∷ strategy_to_ipld c.chunking_strategy
      ∷ [])

  unfoldable pub threshold_of_parts : List I → Result (Strategies H)
  threshold_of_parts (factor ∷ code ∷ []) = and_then (format.to_integer code) (λ hf.
      and_then (format.code_of hf) (λ h.
        and_then (format.to_integer factor)
          (λ f. ok (threshold (record { chunking_factor = f; multihash_code = h })))))
  threshold_of_parts _ = err decode

  unfoldable pub strategy_of_entry : Option (String × I) → Result (Strategies H)
  strategy_of_entry none = err decode
  strategy_of_entry (some (key, value)) =
      if str_eq key "hashThreshold"
      then and_then (format.to_list value) threshold_of_parts
      else err unknown_chunking_strategy

  -- `TryFrom<Ipld> for Config`: the parts are taken from the last to the first.
  unfoldable pub config_of_parts : List I → Result (Config H)
  config_of_parts (lo ∷ hi ∷ version ∷ codec ∷ code ∷ len ∷ strategy ∷ []) =
      and_then (and_then (format.to_map strategy) (λ m. strategy_of_entry (last_entry m))) (λ s.
        and_then (format.to_option_integer len) (λ l. and_then (format.to_integer code) (λ hf.
          and_then (format.code_of hf) (λ h. and_then (format.to_integer codec) (λ n.
            and_then (or_error unknown_codec (codec_of n)) (λ c.
              and_then (format.to_integer version) (λ v. and_then (format.to_integer hi) (λ b.
                and_then (format.to_integer lo) (λ a. ok (record {
                  min_size = a;
                  max_size = b;
                  cid_version = v;
                  codec = c;
                  multihash_code = h;
                  hash_length = l;
                  chunking_strategy = s;
                }))))))))))
  config_of_parts _ = err decode

  unfoldable pub config_of_ipld : I → Result (Config H)
  config_of_ipld i = and_then (format.to_list i) config_of_parts

  -- `From<Tree> for Ipld`
  unfoldable pub tree_to_ipld : TreeHandle C → I
  tree_to_ipld t = format.of_list (format.of_link t.config ∷ format.of_link t.root ∷ [])

  unfoldable pub tree_of_parts : List I → Result (TreeHandle C)
  tree_of_parts (config ∷ root ∷ []) =
      and_then (format.to_link root)
        (λ r. and_then (format.to_link config) (λ c. ok (record { config = c; root = r })))
  tree_of_parts _ = err decode

  -- `TryFrom<Ipld> for Tree`
  unfoldable pub tree_of_ipld : I → Result (TreeHandle C)
  tree_of_ipld i = and_then (format.to_list i) tree_of_parts
