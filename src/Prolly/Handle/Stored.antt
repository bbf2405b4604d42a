-- ===== src/Prolly/Handle/Stored.antt =====
-- The handle of a tree: what `save` stores `load` gives back, and what `get` finds.
use rust_defluencer.Base.{
  ℕ, ◌≡◌, ◌>>=◌, refl, sym, subst, ap, ◌∙◌, inl, inr, [], ◌∷◌, Option, none, some, Option-cases,
  map, ok, Ensures, Ensures-bind, Ensures-returned, Post-imp,
}
use rust_defluencer.Base.Key.{Key}
use rust_defluencer.Base.Sets.{set_insert}
use rust_defluencer.Ipfs.{Ipfs, dag_put, dag_get, dag_get-Grows, dag_put-Ensures, Grows}
use rust_defluencer.Prolly.Node.Pairs.{read as read_in}
use rust_defluencer.Prolly.Node.Swaps.{hits}
use rust_defluencer.Prolly.Ipld.{TreeNodes, dag_cbor, TreeHandle}
use rust_defluencer.Prolly.Tree.{sorted_keys}
use rust_defluencer.Prolly.Tree.Reads.{get_one, IsTree, batch_get_lem}
use rust_defluencer.Prolly.Handle.{
  TreeCodecs, ProllyTree, all_or_error, collect_one, save, load, get, put_as,
}

module _ {K V C S H : Type 0} ⦃keys : Key K⦄ ⦃cids : Key C⦄ (ipfs : Ipfs C S)
    (codecs : TreeCodecs ipfs.Block K V C H) where
  save-Ensures :
      (tree : ProllyTree C H) (s : S)
      → tree.config.codec ≡ dag_cbor
      → Ensures
          (λ (c : C) (s' : S). load ipfs codecs c s' ≡ (ok tree, s'))
          (save ipfs codecs tree s)
  unfolding save put_as
  save-Ensures tree s cbor =
      subst
        (λ codec.
          Ensures (λ (c : C) (s' : S). load ipfs codecs c s' ≡ (ok tree, s'))
            ((put_as ipfs codecs codec codecs.config codecs.config_json tree.config >>= λ config.
                put_as ipfs codecs codec codecs.handle codecs.handle_json
                  (record { config = config; root = tree.root }))
              s))
        (sym cbor)
        (Ensures-bind
          (λ (c : C) (u : S). (dag_get ipfs codecs.config c u ≡ ok tree.config) × Grows ipfs s u)
          (λ (c : C) (s' : S). load ipfs codecs c s' ≡ (ok tree, s'))
          (dag_put ipfs codecs.config tree.config)
          (λ config. dag_put ipfs codecs.handle (record { config = config; root = tree.root })) s
          (dag_put-Ensures ipfs codecs.config tree.config s)
          (λ config _ put.
            let u = (dag_put ipfs codecs.config tree.config s).1 in
            let handle : TreeHandle C = record { config = config; root = tree.root } in
            Post-imp
              (λ (c : C) (s' : S). (dag_get ipfs codecs.handle c s' ≡ ok handle) × Grows ipfs u s')
              (λ (c : C) (s' : S). load ipfs codecs c s' ≡ (ok tree, s')) _ _
              (λ c _ stored.
                loaded c _ config stored.0
                  (dag_get-Grows ipfs codecs.config config u _ tree.config stored.1 put.0))
              (dag_put-Ensures ipfs codecs.handle handle u)))
    where
      loaded :
          (c : C) (s' : S) (config : C)
          → dag_get ipfs codecs.handle c s' ≡ ok (record { config = config; root = tree.root })
          → dag_get ipfs codecs.config config s' ≡ ok tree.config
          → load ipfs codecs c s' ≡ (ok tree, s')
      loaded c s' config h k = unfold load in rw (h, k) refl

  -- Where the codec of the configuration is DAG-CBOR, which `load` reads, and `save` returns, `load` of
  -- the link gives the same tree.
  pub load-save :
      (tree : ProllyTree C H) (s s' : S) (c : C)
      → tree.config.codec ≡ dag_cbor
      → save ipfs codecs tree s ≡ (ok c, s')
      → load ipfs codecs c s' ≡ (ok tree, s')
  load-save tree s s' c cbor run =
      Ensures-returned (λ (c : C) (s' : S). load ipfs codecs c s' ≡ (ok tree, s'))
        (save ipfs codecs tree s) c s' (save-Ensures tree s cbor) run

  abbrev pub with_key : K → Option V → Option (K × V)
  with_key key none = none
  with_key key (some v) = some (key, v)

  collected :
      (f : K → Option V) (key : K)
      → collect_one (some (map (λ (z : K × V). ok z) (hits f (key ∷ []))))
        ≡ some (ok (with_key key (f key)))
  unfolding all_or_error collect_one
  collected f key = elim (Option-cases (f key)) [
    | inl e ↦ rw (hits, e, with_key) refl
    | inr (v, e) ↦ rw (hits, e, with_key) refl
  ]

  -- Where the root of the tree is that of a tree of at most `depth` levels, `get` with fuel for its levels
  -- returns the key with the value that the descent for the key finds, or nothing where it finds none.
  pub get_lem :
      (depth : ℕ) (tree : ProllyTree C H) (nodes : TreeNodes K V C) (key : K) (s : S)
      → dag_get ipfs codecs.nodes tree.root s ≡ ok nodes
      → IsTree ipfs codecs.nodes depth nodes s
      → get ipfs codecs depth tree key s
        ≡ some (ok (with_key key (get_one ipfs codecs.nodes depth nodes key s)))
  unfolding get
  get_lem depth tree nodes key s loads whole =
      ap collect_one
        (batch_get_lem ipfs codecs.nodes depth tree.root nodes (key ∷ []) s loads whole)
      ∙ (unfold sorted_keys set_insert in
          collected (λ k. get_one ipfs codecs.nodes depth nodes k s) key)
