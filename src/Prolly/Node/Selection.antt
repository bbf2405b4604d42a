-- ===== src/Prolly/Node/Selection.antt =====
-- `into_search_batch`: what a leaf keeps for a batch of keys in order.
use rust_defluencer.Base.{
  ℕ, ◌+◌, ◌≡◌, refl, sym, ap, subst, ◌∙◌, List, [], ◌∷◌, ◌++◌, Option, none, some, length,
  length-append, append_assoc, append_nil, ok, and_then,
}
use rust_defluencer.Base.Key.{Key, ◌≺◌}
use rust_defluencer.Prolly.Node.{
  TreeNode, Search, found, absent, binary_search, keep_found, into_search_batch, zip, pairs,
}
use rust_defluencer.Prolly.Node.Pairs.{
  All, All-imp, All-append_one, All-both, All-append, All-intro, IsSorted, read,
}
use rust_defluencer.Prolly.Node.Update.{IsNode, lookup}
use rust_defluencer.Prolly.Node.Swaps.{
  firsts, seconds, of_pairs, hits, zip-firsts, firsts-zip, seconds-zip, take-fields, length_more,
  swapped,
}
use rust_defluencer.Prolly.Node.Searches.{
  after_all, after_all-found, after_all-absent, Below, read_at, binary_search-append, read-append,
  Searched, binary_search-Searched, IsSorted-after,
}

module _ {K V : Type 0} ⦃o : Key K⦄ (f : K → Option V) where
  -- The loop after the keys of the batch so far: `kept` in front, then `ms` that no key to come is
  -- among, then pairs `ys` in order in which the keys to come are searched.
  record Loop (kept ms ys : List (K × V)) (batch : List K) : Type 0 where
    pub sorted_batch : IsSorted batch
    pub sorted_pairs : IsSorted (firsts ys)
    pub kept_below : All (λ b. Below b kept) batch
    pub moved_below : All (λ b. Below b ms) batch
    pub reads : All (λ b. read_at b ys ≡ f b) batch

  abbrev Kept : List (K × V) → List (K × V) → List (K × V) → List K → Type 0
  Kept kept ms ys batch =
      (rest : List (K × V)) × (keep_found (of_pairs (kept ++ (ms ++ ys))) (length kept) batch
        ≡ ok (of_pairs ((kept ++ hits f batch) ++ rest), length (kept ++ hits f batch)))

  searched :
      (kept ms ys : List (K × V)) (b : K) (batch : List K)
      → Loop kept ms ys (b ∷ batch)
      → binary_search b (firsts (kept ++ (ms ++ ys)))
        ≡ after_all (length kept) (after_all (length ms) (binary_search b (firsts ys)))
  searched kept ms ys b batch l =
      binary_search-append b kept (ms ++ ys) l.kept_below.0
      ∙ ap (λ u. after_all (length kept) u) (binary_search-append b ms ys l.moved_below.0)

  not_found :
      (kept ms ys : List (K × V)) (b : K) (batch : List K) (i : ℕ)
      → Loop kept ms ys (b ∷ batch)
      → binary_search b (firsts ys) ≡ absent i
      → f b ≡ none
      → Kept kept ms ys batch
      → Kept kept ms ys (b ∷ batch)
  unfolding keep_found
  not_found kept ms ys b batch i l s e (rest, ran) = (
    rest,
    rw
        (
          searched kept ms ys b batch l,
          s,
          after_all-absent (length ms) i,
          after_all-absent (length kept) (length ms + i),
          keep_found,
          hits,
          e,
        )
        ran,
  )

  found_place :
      (kept ms xs ys : List (K × V)) (b : K) (v : V) (batch : List K)
      → Loop kept ms (xs ++ (b, v) ∷ ys) (b ∷ batch)
      → binary_search b (firsts (xs ++ (b, v) ∷ ys)) ≡ found (length xs)
      → binary_search b (firsts (kept ++ (ms ++ (xs ++ (b, v) ∷ ys))))
        ≡ found (length (kept ++ (ms ++ xs)))
  found_place kept ms xs ys b v batch l s =
      searched kept ms (xs ++ (b, v) ∷ ys) b batch l
      ∙ rw
          (
            s,
            after_all-found (length ms) (length xs),
            after_all-found (length kept) (length ms + length xs),
            length-append kept (ms ++ xs),
            length-append ms xs,
          )
          refl

  -- The loop goes on behind the pair that was found.
  next-Loop :
      (kept ms ms' xs ys : List (K × V)) (b : K) (v : V) (batch : List K)
      → Loop kept ms (xs ++ (b, v) ∷ ys) (b ∷ batch)
      → Below b xs
      → ((P : K × V → Type 0) → All P (ms ++ xs) → All P ms')
      → Loop (kept ++ (b, v) ∷ []) ms' ys batch
  next-Loop kept ms ms' xs ys b v batch l below transfer = record {
    sorted_batch = l.sorted_batch.1;
    sorted_pairs = (IsSorted-after xs ((b, v) ∷ ys) l.sorted_pairs).1;
    kept_below =
        All-both (λ c under above. All-append_one (λ z. z.0 ≺ c) kept (b, v) under above) batch
          l.kept_below.1 l.sorted_batch.0;
    moved_below =
        All-both
          (λ c under above.
            transfer (λ z. z.0 ≺ c)
              (All-append (λ z. z.0 ≺ c) ms xs under
                (All-imp (λ z q. o.lt_trans z.0 b c q above) xs below)))
          batch l.moved_below.1 l.sorted_batch.0;
    reads =
        All-both
          (λ c r above.
            sym (read-append c ((b, v) ∷ []) ys (above, tt))
            ∙ sym (
                read-append c xs ((b, v) ∷ ys)
                  (All-imp (λ z q. o.lt_trans z.0 b c q above) xs below))
            ∙ r)
          batch l.reads.1 l.sorted_batch.0;
  }

  found_one :
      (kept ms xs ys : List (K × V)) (b : K) (v : V) (batch : List K)
      → Loop kept ms (xs ++ (b, v) ∷ ys) (b ∷ batch)
      → Below b xs
      → binary_search b (firsts (xs ++ (b, v) ∷ ys)) ≡ found (length xs)
      → f b ≡ some v
      → ((ms' : List (K × V))
          → Loop (kept ++ (b, v) ∷ []) ms' ys batch
          → Kept (kept ++ (b, v) ∷ []) ms' ys batch)
      → Kept kept ms (xs ++ (b, v) ∷ ys) (b ∷ batch)
  unfolding keep_found
  found_one kept ms xs ys b v batch l below s e loop =
      let (ms', in_keys, in_values, transfer) = swapped kept (b, v) ys (ms ++ xs) in
      let (rest, ran) = loop ms' (next-Loop kept ms ms' xs ys b v batch l below transfer) in
      (
        rest,
        rw
            (
              found_place kept ms xs ys b v batch l s,
              keep_found,
              sym (append_assoc ms xs ((b, v) ∷ ys)),
              in_keys,
              in_values,
              and_then,
              hits,
              e,
            )
            (rw
              (sym (append_assoc kept ((b, v) ∷ []) (hits f batch)), sym (length_more kept (b, v)))
              ran),
      )

  by_search :
      (kept ms ys : List (K × V)) (b : K) (batch : List K) (s : Search)
      → Loop kept ms ys (b ∷ batch)
      → binary_search b (firsts ys) ≡ s
      → Searched b ys s
      → ((kept ms ys : List (K × V)) → Loop kept ms ys batch → Kept kept ms ys batch)
      → Kept kept ms ys (b ∷ batch)
  by_search kept ms ys b batch (absent i) l s r loop =
      let later : Loop kept ms ys batch = record {
        sorted_batch = l.sorted_batch.1;
        sorted_pairs = l.sorted_pairs;
        kept_below = l.kept_below.1;
        moved_below = l.moved_below.1;
        reads = l.reads.1;
      } in
      not_found kept ms ys b batch i l s (sym l.reads.0 ∙ r) (loop kept ms ys later)
  by_search kept ms ys b batch (found i) l s (xs, v, zs, e, n, below, r) loop =
      let l' = subst (λ u. Loop kept ms u (b ∷ batch)) e l in
      let s' =
        subst (λ u. binary_search b (firsts u) ≡ found (length xs)) e (s ∙ ap found (sym n)) in
      subst (λ u. Kept kept ms u (b ∷ batch)) (sym e)
        (found_one kept ms xs zs b v batch l' below s' (sym l.reads.0 ∙ r)
          (λ ms' later. loop (kept ++ (b, v) ∷ []) ms' zs later))

  keep_found-lem :
      (batch : List K) (kept ms ys : List (K × V)) → Loop kept ms ys batch → Kept kept ms ys batch
  keep_found-lem [] kept ms ys l = (ms ++ ys, unfold keep_found in rw (append_nil kept) refl)
  keep_found-lem (b ∷ batch) kept ms ys l =
      by_search kept ms ys b batch (binary_search b (firsts ys)) l refl
        (binary_search-Searched b ys l.sorted_pairs)
        (λ kept ms ys later. keep_found-lem batch kept ms ys later)

module _ {K V : Type 0} ⦃o : Key K⦄ where
  selected :
      (zs : List (K × V)) (batch : List K)
      → IsSorted (firsts zs)
      → IsSorted batch
      → into_search_batch (of_pairs zs) batch ≡ ok (of_pairs (hits (λ b. read_at b zs) batch))
  unfolding into_search_batch
  selected zs batch h s =
      let start : Loop (λ b. read_at b zs) [] [] zs batch = record {
        sorted_batch = s;
        sorted_pairs = h;
        kept_below = All-intro (λ b. Below {V = V} b []) (λ b. tt) batch;
        moved_below = All-intro (λ b. Below {V = V} b []) (λ b. tt) batch;
        reads = All-intro (λ b. read_at b zs ≡ read_at b zs) (λ b. refl) batch;
      } in
      let (rest, ran) = keep_found-lem (λ b. read_at b zs) batch [] [] zs start in
      let found_pairs = hits (λ b. read_at b zs) batch in
      rw
        (
          ran,
          and_then,
          take-fields (λ z. z.0) found_pairs rest,
          take-fields (λ z. z.1) found_pairs rest,
        )
        refl

  -- On a well-formed leaf and a batch in order without repetition, `into_search_batch` does not panic,
  -- and leaves the keys of the batch that the leaf has, in order, with the values that it has for them.
  pub into_search_batch_lem :
      (node : TreeNode K V) (batch : List K)
      → IsNode node
      → IsSorted batch
      → (node' : TreeNode K V) × (into_search_batch node batch ≡ ok node')
        × (pairs node' ≡ hits (λ b. lookup b node) batch)
  unfolding pairs
  into_search_batch_lem node batch h s =
      let zs = zip node.keys node.values in
      let ks = firsts-zip node.keys node.values h.paired in
      let vs = seconds-zip node.keys node.values h.paired in
      let ran = selected zs batch (subst IsSorted (sym ks) h.sorted) s in
      let with_keys =
        subst
          (λ k.
            into_search_batch (record { keys = k; values = seconds zs }) batch
            ≡ ok (of_pairs (hits (λ b. read b k (seconds zs)) batch)))
          ks ran in
      (
        of_pairs (hits (λ b. lookup b node) batch),
        subst
            (λ v.
              into_search_batch (record { keys = node.keys; values = v }) batch
              ≡ ok (of_pairs (hits (λ b. read b node.keys v) batch)))
            vs with_keys,
        zip-firsts (hits (λ b. lookup b node) batch),
      )
