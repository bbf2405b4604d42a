-- ===== src/Prolly/Ipld/Tests.antt =====
-- A type of IPLD values, and the round trips at a leaf, a branch, a configuration and a handle.
use Prim.Native.String.{String}
use rust_defluencer.Base.{
  ℕ, ◌≡◌, refl, Bool, Option, none, some, List, [], ◌∷◌, Result, ok, err, ipld, and_then,
}
use rust_defluencer.Prolly.Ipld.{
  Ipld, Convert, TreeNodes, leaf, nodes_to_ipld, nodes_of_ipld, dag_cbor, threshold, Config,
  config_to_ipld, config_of_ipld,
}
use rust_defluencer.Prolly.Ipld.RoundTrip.{
  nodes_of_ipld-nodes_to_ipld, config_of_ipld-config_to_ipld,
}

-- Lists and maps are chains; links and hash codes are numbers.
data Value : Type 0 where
  boolean : Bool → Value
  integer link : ℕ → Value
  nothing nil map_end : Value
  cons : Value → Value → Value
  entry : String → Value → Value → Value

abbrev of_list : List Value → Value
of_list [] = nil
of_list (x ∷ xs) = cons x (of_list xs)

abbrev to_list : Value → Result (List Value)
to_list nil = ok []
to_list (cons x xs) = and_then (to_list xs) (λ ys. ok (x ∷ ys))
to_list _ = err ipld

abbrev of_map : List (String × Value) → Value
of_map [] = map_end
of_map ((k, v) ∷ m) = entry k v (of_map m)

abbrev to_map : Value → Result (List (String × Value))
to_map map_end = ok []
to_map (entry k v m) = and_then (to_map m) (λ n. ok ((k, v) ∷ n))
to_map _ = err ipld

abbrev to_bool : Value → Result Bool
to_bool (boolean b) = ok b
to_bool _ = err ipld

abbrev to_integer : Value → Result ℕ
to_integer (integer n) = ok n
to_integer _ = err ipld

abbrev to_option_integer : Value → Result (Option ℕ)
to_option_integer nothing = ok none
to_option_integer (integer n) = ok (some n)
to_option_integer _ = err ipld

abbrev to_link : Value → Result ℕ
to_link (link c) = ok c
to_link _ = err ipld

to_list-of_list : (xs : List Value) → to_list (of_list xs) ≡ ok xs
to_list-of_list [] = refl
to_list-of_list (x ∷ xs) = rw (to_list-of_list xs) refl

to_map-of_map : (m : List (String × Value)) → to_map (of_map m) ≡ ok m
to_map-of_map [] = refl
to_map-of_map ((k, v) ∷ m) = rw (to_map-of_map m) refl

abbrev format : Ipld Value ℕ ℕ
format = record {
  of_bool = boolean;
  of_integer = integer;
  of_link = link;
  of_list = of_list;
  of_map = of_map;
  null = nothing;
  to_bool = to_bool;
  to_integer = to_integer;
  to_option_integer = to_option_integer;
  to_link = to_link;
  to_list = to_list;
  to_map = to_map;
  code_number = λ h. h;
  code_of = ok;
  to_bool-of_bool = λ b. refl;
  to_integer-of_integer = λ n. refl;
  to_option-of_integer = λ n. refl;
  to_option-null = refl;
  to_link-of_link = λ c. refl;
  to_list-of_list = to_list-of_list;
  to_map-of_map = to_map-of_map;
  code_of-code_number = λ h. refl;
}

abbrev number_of : Value → Option ℕ
number_of (integer n) = some n
number_of _ = none

abbrev numbers : Convert Value ℕ
numbers = record { into = integer; try_from = number_of; try_from-into = λ t. refl }

abbrev a_leaf : TreeNodes ℕ ℕ ℕ
a_leaf = leaf (record { keys = 1 ∷ 2 ∷ []; values = 10 ∷ 20 ∷ [] })

abbrev a_config : Config ℕ
a_config = record {
  min_size = 0;
  max_size = 1048576;
  cid_version = 1;
  codec = dag_cbor;
  multihash_code = 18;
  hash_length = none;
  chunking_strategy = threshold (record { chunking_factor = 16; multihash_code = 30 });
}

nodes_of_ipld-nodes_to_ipld_example :
    nodes_of_ipld format numbers numbers (nodes_to_ipld format numbers numbers a_leaf) ≡ ok a_leaf
nodes_of_ipld-nodes_to_ipld_example = nodes_of_ipld-nodes_to_ipld format numbers numbers a_leaf

config_of_ipld-config_to_ipld_example :
    config_of_ipld format (config_to_ipld format a_config) ≡ ok a_config
config_of_ipld-config_to_ipld_example = config_of_ipld-config_to_ipld format a_config
