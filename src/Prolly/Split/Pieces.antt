-- ===== src/Prolly/Split/Pieces.antt =====
-- With a maximum of at least one key, `split` ends, loses nothing and keeps the order.
use rust_defluencer.Base.{
  ℕ, zero, suc, ◌-◌, ◌≤◌, ◌<◌, ◌≡◌, refl, ap, sym, ◌∙◌, ◌⊎◌, inl, inr, Bool, true, false, List, [],
  ◌∷◌, ◌++◌, Option, some, arith, ltb, ◌==◌, length, get_elem?, take, drop, Result, ok, Bool-cases,
  ltb→lt, ltb→le,
}
use native.Mathlib.Decide.{ℕ_discrete}
use mathlib.Core.List.{append-nil, append_assoc}
use rust_defluencer.Prolly.Node.{TreeNode}
use rust_defluencer.Prolly.Split.{split_off, chop, boundary_at, cut, overflows, split_nodes, split}

pos-ne_zero : (n : ℕ) → 0 < n → (n == 0) ≡ false
pos-ne_zero n h = ground arith

overflows-pos : (keys max : ℕ) → 0 < max → overflows keys max ≡ false
unfolding overflows
overflows-pos zero max h = refl
overflows-pos (suc n) max h = pos-ne_zero max h

module _ {A : Type 0} where
  take-append-drop : (n : ℕ) (xs : List A) → take n xs ++ drop n xs ≡ xs
  take-append-drop zero xs = refl
  take-append-drop (suc n) [] = refl
  take-append-drop (suc n) (x ∷ xs) = rw (take-append-drop n xs)

  length-take : (n : ℕ) (xs : List A) → n ≤ length xs → length (take n xs) ≡ n
  length-take zero xs h = refl
  length-take (suc n) [] h = absurd (omega arith)
  length-take (suc n) (x ∷ xs) h = ap suc (length-take n xs (omega arith))

  length-drop : (n : ℕ) (xs : List A) → length (drop n xs) ≡ length xs - n
  length-drop zero xs = omega arith
  length-drop (suc n) [] = omega arith
  length-drop (suc n) (x ∷ xs) = omega (arith, length-drop n xs)

  get_elem?_of_lt : (xs : List A) (i : ℕ) → i < length xs → (x : A) × (get_elem? xs i ≡ some x)
  get_elem?_of_lt [] i h = absurd (omega arith)
  get_elem?_of_lt (x ∷ xs) zero h = (x, refl)
  get_elem?_of_lt (x ∷ xs) (suc i) h = get_elem?_of_lt xs i (omega arith)

  nil_of_length : (xs : List A) → length xs ≡ 0 → xs ≡ []
  nil_of_length [] h = refl
  nil_of_length (x ∷ xs) h = absurd (omega arith)

  -- Putting the parts together again, in front of a rest.
  join_parts :
      (i : ℕ) (xs rest out : List A) → out ≡ take i xs ++ (drop i xs ++ rest) → out ≡ xs ++ rest
  join_parts i xs rest out e =
      e
      ∙ sym (append_assoc (take i xs) (drop i xs) rest)
      ∙ ap (λ ys. ys ++ rest) (take-append-drop i xs)

module _ {K T : Type 0} where
  -- The keys and the values of a sequence of nodes.
  abbrev pub all_keys : List (TreeNode K T) → List K
  all_keys [] = []
  all_keys (n ∷ ns) = n.keys ++ all_keys ns

  abbrev pub all_values : List (TreeNode K T) → List T
  all_values [] = []
  all_values (n ∷ ns) = n.values ++ all_values ns

  -- Nodes with at least one key and at most `max`, and as many values.
  abbrev pub AllSized : ℕ → List (TreeNode K T) → Type 0
  AllSized max [] = Unit
  AllSized max (n ∷ ns) =
      ((0 < length n.keys) × (length n.keys ≤ max) × (length n.keys ≡ length n.values))
      × AllSized max ns

  -- The two parts of a node at an index.
  abbrev before : ℕ → TreeNode K T → TreeNode K T
  before i node = record { keys = take i node.keys; values = take i node.values }

  abbrev from : ℕ → TreeNode K T → TreeNode K T
  from i node = record { keys = drop i node.keys; values = drop i node.values }

  split_off_lem :
      (i : ℕ) (node : TreeNode K T)
      → i ≤ length node.keys
      → length node.keys ≡ length node.values
      → split_off i node ≡ ok (before i node, from i node)
  unfolding split_off
  split_off_lem i node h l = ground arith

  length-before :
      (i : ℕ) (node : TreeNode K T) → i ≤ length node.keys → length (before i node).keys ≡ i
  length-before i node h = length-take i node.keys h

  before-paired :
      (i : ℕ) (node : TreeNode K T)
      → i ≤ length node.keys
      → length node.keys ≡ length node.values
      → length (before i node).keys ≡ length (before i node).values
  before-paired i node h l =
      length-take i node.keys h ∙ sym (length-take i node.values (omega arith))

  from-paired :
      (i : ℕ) (node : TreeNode K T)
      → length node.keys ≡ length node.values
      → length (from i node).keys ≡ length (from i node).values
  from-paired i node l = omega (arith, length-drop i node.keys, length-drop i node.values)

  abbrev Chopped : ℕ → ℕ → TreeNode K T → List (TreeNode K T) → Type 0
  Chopped f max node nodes =
      (out : List (TreeNode K T)) × (chop f max node nodes ≡ some (ok out))
      × (all_keys out ≡ node.keys ++ all_keys nodes)
      × (all_values out ≡ node.values ++ all_values nodes)
      × AllSized max out

  chop_lem :
      (f max : ℕ) (node : TreeNode K T) (nodes : List (TreeNode K T))
      → 0 < max
      → length node.keys < f
      → 0 < length node.keys
      → length node.keys ≡ length node.values
      → AllSized max nodes
      → Chopped f max node nodes
  unfolding chop
  chop_lem zero max node nodes p q n l h = absurd (omega arith)
  chop_lem (suc f) max node nodes p q n l h = elim (Bool-cases (ltb max (length node.keys))) [
    | inr fine ↦ (
      node ∷ nodes,
      rw (fine, chop) refl,
      refl,
      refl,
      ((n, ltb→le max (length node.keys) fine, l), h),
    )
    | inl big ↦
        let i = length node.keys - max in
        let less : max < length node.keys = ltb→lt max (length node.keys) big in
        let within : i ≤ length node.keys = omega arith in
        let (out, ran, keys, values, sized) =
          chop_lem f max (before i node) (from i node ∷ nodes) p
            (omega (arith, length-before i node within))
            (omega (arith, length-before i node within)) (before-paired i node within l)
            (
              (
                omega (arith, length-drop i node.keys),
                omega (arith, length-drop i node.keys),
                from-paired i node l,
              ),
              h,
            ) in
        (
          out,
          rw (big, chop) (rw (split_off_lem i node within l) ran),
          join_parts i node.keys (all_keys nodes) (all_keys out) keys,
          join_parts i node.values (all_values nodes) (all_values out) values,
          sized,
        )
  ]

module _ {K T : Type 0} (boundary : K → T → Result Bool)
    (total : (key : K) (value : T) → (b : Bool) × (boundary key value ≡ ok b)) where
  boundary_at-some :
      (i : ℕ) (node : TreeNode K T) {key : K} {value : T}
      → get_elem? node.keys i ≡ some key
      → get_elem? node.values i ≡ some value
      → boundary_at boundary i node ≡ boundary key value
  unfolding boundary_at
  boundary_at-some i node k v = rw (k, boundary_at) (rw v refl)

  boundary_at_lem :
      (i : ℕ) (node : TreeNode K T)
      → i < length node.keys
      → length node.keys ≡ length node.values
      → (b : Bool) × (boundary_at boundary i node ≡ ok b)
  boundary_at_lem i node h l =
      let (key, k) = get_elem?_of_lt node.keys i h in
      let (value, v) = get_elem?_of_lt node.values i (omega arith) in
      let (b, e) = total key value in (b, boundary_at-some i node k v ∙ e)

  abbrev Cut : ℕ → ℕ → ℕ → TreeNode K T → List (TreeNode K T) → Type 0
  Cut fuel max n node nodes =
      (r : TreeNode K T × List (TreeNode K T)) × (cut boundary fuel max n node nodes ≡ some (ok r))
      × (r.0.keys ++ all_keys r.1 ≡ node.keys ++ all_keys nodes)
      × (r.0.values ++ all_values r.1 ≡ node.values ++ all_values nodes)
      × AllSized max r.1
      × (0 < length r.0.keys)
      × (length r.0.keys ≤ length node.keys)
      × (length r.0.keys ≡ length r.0.values)

  cut_lem :
      (fuel max n : ℕ) (node : TreeNode K T) (nodes : List (TreeNode K T))
      → 0 < max
      → length node.keys < fuel
      → n < length node.keys
      → length node.keys ≡ length node.values
      → AllSized max nodes
      → Cut fuel max n node nodes
  unfolding cut
  cut_lem fuel max zero node nodes p q n l h =
      ((node, nodes), refl, refl, refl, h, n, omega arith, l)
  cut_lem fuel max (suc n) node nodes p q m l h =
      at_boundary (boundary_at_lem (suc n) node m l)
        (λ nodes'.
          cut_lem fuel max n (before (suc n) node) nodes' p
            (omega (arith, length-before (suc n) node)) (omega (arith, length-before (suc n) node))
            (before-paired (suc n) node (omega arith) l))
        (cut_lem fuel max n node nodes p q (omega arith) l h)
    where
      at_boundary :
          (b : Bool) × (boundary_at boundary (suc n) node ≡ ok b)
          → ((nodes' : List (TreeNode K T))
              → AllSized max nodes'
              → Cut fuel max n (before (suc n) node) nodes')
          → Cut fuel max n node nodes
          → Cut fuel max (suc n) node nodes
      at_boundary (false, e) split_here go_on =
          (go_on.0, rw (e, cut) go_on.1, go_on.2, go_on.3, go_on.4, go_on.5, go_on.6, go_on.7)
      at_boundary (true, e) split_here go_on =
          let i = suc n in
          let (nodes', ran, keys, values, sized) =
            chop_lem fuel max (from i node) nodes p (omega (arith, length-drop i node.keys))
              (omega (arith, length-drop i node.keys)) (from-paired i node l) h in
          let c = split_here nodes' sized in
          (
            c.0,
            rw (e, cut) (rw (split_off_lem i node (omega arith) l) (rw ran c.1)),
            join_parts i node.keys (all_keys nodes) (c.0.0.keys ++ all_keys c.0.1)
                (c.2 ∙ ap (λ ys. take i node.keys ++ ys) keys),
            join_parts i node.values (all_values nodes) (c.0.0.values ++ all_values c.0.1)
                (c.3 ∙ ap (λ ys. take i node.values ++ ys) values),
            c.4,
            c.5,
            omega (arith, c.6, length-before i node),
            c.7,
          )

  -- What `split` returns: nodes in order with all the keys and values of the node, each with at
  -- least one key, at most `max` keys, and as many values.
  abbrev pub Split : Option (Result (List (TreeNode K T))) → ℕ → TreeNode K T → Type 0
  Split run max node =
      (out : List (TreeNode K T)) × (run ≡ some (ok out))
      × (all_keys out ≡ node.keys)
      × (all_values out ≡ node.values)
      × AllSized max out

  split_nodes_lem :
      (fuel max : ℕ) (node : TreeNode K T)
      → 0 < max
      → length node.keys < fuel
      → length node.keys ≡ length node.values
      → Split (split_nodes boundary fuel max node) max node
  unfolding split_nodes
  split_nodes_lem fuel max node p q l = elim (ℕ_discrete (length node.keys) 0) [
    | yes none_there ↦ (
      [],
      rw (overflows-pos (length node.keys) max p, split_nodes)
          (rw none_there (unfold cut in rw none_there refl)),
      sym (nil_of_length node.keys none_there),
      sym (nil_of_length node.values (sym l ∙ none_there)),
      tt,
    )
    | no some_there ↦
        let c = cut_lem fuel max (length node.keys - 1) node [] p q (omega arith) l tt in
        let (out, ran, keys, values, sized) =
          chop_lem fuel max c.0.0 c.0.1 p (omega (arith, c.6)) c.5 c.7 c.4 in
        (
          out,
          rw (overflows-pos (length node.keys) max p, split_nodes)
              (rw c.1 (rw (pos-ne_zero (length c.0.0.keys) c.5) ran)),
          keys ∙ c.2 ∙ append-nil node.keys,
          values ∙ c.3 ∙ append-nil node.values,
          sized,
        )
  ]

  -- `split`, for a node that has as many values as keys, an encoder that succeeds on it, a boundary
  -- test that always succeeds, and a maximum of at least one key: with more fuel than keys it
  -- ends. A node below the minimal size is returned as it is. Any other one is returned as a
  -- sequence of nodes that has its keys and values in their order, each node with at least one key, at most
  -- the maximum, and as many values.
  pub split_lem :
      (size : TreeNode K T → Result ℕ) (scale : ℕ → ℕ → ℕ → ℕ) (min_size max_size fuel : ℕ)
      (node : TreeNode K T) (bytes : ℕ)
      → size node ≡ ok bytes
      → 0 < scale (length node.keys) max_size bytes
      → length node.keys < fuel
      → length node.keys ≡ length node.values
      → ((bytes < min_size)
          × (split boundary size scale min_size max_size fuel node ≡ some (ok (node ∷ []))))
        ⊎ ((min_size ≤ bytes)
            × Split
                (split boundary size scale min_size max_size fuel node)
                (scale (length node.keys) max_size bytes)
                node)
  unfolding split
  split_lem size scale min_size max_size fuel node bytes e p q l =
      elim (Bool-cases (ltb bytes min_size)) [
        | inl small ↦ inl (ltb→lt bytes min_size small, rw e (rw small refl))
        | inr big ↦ inr (
          ltb→le bytes min_size big,
          rw e (rw big (split_nodes_lem fuel (scale (length node.keys) max_size bytes) node p q l)),
        )
      ]
