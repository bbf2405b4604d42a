-- ===== src/Prolly/Ipld/RoundTrip.antt =====
-- What is written as an IPLD value is read back.
use rust_defluencer.Base.{
  ℕ, ◌≡◌, refl, ap, true, false, List, [], ◌∷◌, Option, none, some, map, Result, ok, and_then,
  unknown_value_type, unknown_key_type,
}
use rust_defluencer.Prolly.Ipld.{
  Ipld, Convert, TreeNodes, branch, leaf, convert_all, or_error, nodes_to_ipld, build_nodes,
  nodes_of_parts, nodes_of_ipld, Codec, dag_cbor, dag_jose, dag_json, codec_number, codec_of,
  Strategies, threshold, last_entry, Config, TreeHandle, strategy_to_ipld, hash_length_to_ipld,
  config_to_ipld, threshold_of_parts, strategy_of_entry, config_of_parts, config_of_ipld,
  tree_to_ipld, tree_of_parts, tree_of_ipld,
}

convert_all-map :
    {A B : Type 0} (f : A → Result B) (g : B → A)
    → ((b : B) → f (g b) ≡ ok b)
    → (xs : List B) → convert_all f (map g xs) ≡ ok xs
unfolding convert_all
convert_all-map f g h [] = refl
convert_all-map f g h (x ∷ xs) = rw (h x) (rw (convert_all-map f g h xs) refl)

module _ {I C H K V : Type 0} (format : Ipld I C H) (keys : Convert I K)
    (values : Convert I V) where
  keys_read :
      (ks : List K)
      → convert_all (λ i. or_error unknown_key_type (keys.try_from i)) (map keys.into ks) ≡ ok ks
  keys_read ks =
      convert_all-map (λ i. or_error unknown_key_type (keys.try_from i)) keys.into
        (λ k. ap (or_error unknown_key_type) (keys.try_from-into k)) ks

  values_read :
      (vs : List V)
      → convert_all (λ i. or_error unknown_value_type (values.try_from i)) (map values.into vs)
        ≡ ok vs
  values_read vs =
      convert_all-map (λ i. or_error unknown_value_type (values.try_from i)) values.into
        (λ v. ap (or_error unknown_value_type) (values.try_from-into v)) vs

  -- A node of a prolly tree, leaf or branch, is read back from its IPLD value, for every format
  -- whose conversions undo its constructors, and keys and values that convert back.
  pub nodes_of_ipld-nodes_to_ipld :
      (nodes : TreeNodes K V C)
      → nodes_of_ipld format keys values (nodes_to_ipld format keys values nodes) ≡ ok nodes
  unfolding nodes_of_ipld nodes_to_ipld nodes_of_parts build_nodes
  nodes_of_ipld-nodes_to_ipld (branch node) = rw (format.to_list-of_list _) (
      rw (format.to_list-of_list _) (
        rw (format.to_list-of_list _) (
          rw (format.to_bool-of_bool false) (
            rw (keys_read node.keys) (
              rw (convert_all-map format.to_link format.of_link format.to_link-of_link node.values)
                refl)))))
  nodes_of_ipld-nodes_to_ipld (leaf node) = rw (format.to_list-of_list _) (
      rw (format.to_list-of_list _) (
        rw (format.to_list-of_list _) (
          rw (format.to_bool-of_bool true)
            (rw (keys_read node.keys) (rw (values_read node.values) refl)))))

codec_of-codec_number : (c : Codec) → codec_of (codec_number c) ≡ some c
codec_of-codec_number dag_cbor = refl
codec_of-codec_number dag_jose = refl
codec_of-codec_number dag_json = refl

module _ {I C H : Type 0} (format : Ipld I C H) where
  hash_length_read : (l : Option ℕ) → format.to_option_integer (hash_length_to_ipld format l) ≡ ok l
  unfolding hash_length_to_ipld
  hash_length_read none = format.to_option-null
  hash_length_read (some n) = format.to_option-of_integer n

  strategy_read :
      (s : Strategies H)
      → and_then
          (format.to_map (strategy_to_ipld format s))
          (λ m. strategy_of_entry format (last_entry m))
        ≡ ok s
  unfolding strategy_to_ipld strategy_of_entry threshold_of_parts
  strategy_read (threshold t) = rw (format.to_map-of_map _) (
      rw (format.to_list-of_list _) (
        rw (format.to_integer-of_integer (format.code_number t.multihash_code)) (
          rw (format.code_of-code_number t.multihash_code)
            (rw (format.to_integer-of_integer t.chunking_factor) refl))))

  -- A configuration is read back from its IPLD value, for every format whose conversions undo its
  -- constructors.
  pub config_of_ipld-config_to_ipld :
      (c : Config H) → config_of_ipld format (config_to_ipld format c) ≡ ok c
  unfolding config_of_ipld config_to_ipld config_of_parts
  config_of_ipld-config_to_ipld c = rw (format.to_list-of_list _) (
      rw (strategy_read c.chunking_strategy) (
        rw (hash_length_read c.hash_length) (
          rw (format.to_integer-of_integer (format.code_number c.multihash_code)) (
            rw (format.code_of-code_number c.multihash_code) (
              rw (format.to_integer-of_integer (codec_number c.codec)) (
                rw (codec_of-codec_number c.codec) (
                  rw (format.to_integer-of_integer c.cid_version) (
                    rw (format.to_integer-of_integer c.max_size)
                      (rw (format.to_integer-of_integer c.min_size) refl)))))))))

  -- The handle of a tree is read back from its IPLD value.
  pub tree_of_ipld-tree_to_ipld :
      (t : TreeHandle C) → tree_of_ipld format (tree_to_ipld format t) ≡ ok t
  unfolding tree_of_ipld tree_to_ipld tree_of_parts
  tree_of_ipld-tree_to_ipld t =
      rw (format.to_list-of_list _)
        (rw (format.to_link-of_link t.root) (rw (format.to_link-of_link t.config) refl))
