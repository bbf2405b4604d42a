-- ===== src/Prolly/Batch/Shares.antt =====
-- The shares of a batch: who gets what, and what nobody gets.
use Prim.Native.Nat.Ordering.{gt}
use rust_defluencer.Base.{
  ℕ, zero, suc, ◌+◌, ◌≤◌, ◌≡◌, refl, sym, ap, subst, ◌∙◌, inl, inr, Bool-cases, List, [], ◌∷◌, ◌++◌,
  Option, none, some, Option-cases, arith, length, length-append, append_assoc, Result, ok,
  and_then,
}
use rust_defluencer.Base.Key.{Key, ◌≺◌, same_key, eq_of_same_key, Ordering-cases}
use rust_defluencer.Prolly.Node.{BranchNode, Search, found, absent, after_one, binary_search}
use rust_defluencer.Prolly.Node.Pairs.{All, All-append_one, IsSorted}
use rust_defluencer.Prolly.Node.Update.{IsNode}
use rust_defluencer.Prolly.Split.{and_run}
use rust_defluencer.Prolly.Batch.{child_place, link_at, yielded, next_in, next, batches}

module _ {C : Type 0} where
  abbrev returned : Option C → Option (Result C)
  returned none = none
  returned (some c) = some (ok c)

  abbrev or_first : C → Option (Result C) → Option (Result C)
  or_first c none = some (ok c)
  or_first c (some r) = some r

  link_at-after_one :
      (c : C) (links : List C) (s : Search)
      → link_at (c ∷ links) (after_one s) ≡ or_first c (link_at links s)
  unfolding link_at child_place after_one
  link_at-after_one c links (found i) = refl
  link_at-after_one c links (absent zero) = refl
  link_at-after_one c links (absent (suc i)) = refl

module _ {K C : Type 0} ⦃keys : Key K⦄ where
  -- The link of the last key that is not above `j`.
  unfoldable pub child : K → List K → List C → Option C
  child j [] links = none
  child j (k ∷ ks) [] = none
  child j (k ∷ ks) (c ∷ links) = elim (keys.cmp k j) [
    | gt ↦ none
    | _ ↦ elim (child j ks links) [ none ↦ some c | some d ↦ some d ]
  ]

  pub child-above :
      (j : K) (ks : List K) (links : List C) → All (λ x. j ≺ x) ks → child j ks links ≡ none
  unfolding child
  child-above j [] links h = refl
  child-above j (k ∷ ks) [] h = refl
  child-above j (k ∷ ks) (c ∷ links) h = rw (keys.gt_of_lt j k h.0, child) refl

  link_at-child :
      (j : K) (ks : List K) (links : List C)
      → IsSorted ks
      → length ks ≡ length links
      → link_at links (binary_search j ks) ≡ returned (child j ks links)
  unfolding binary_search child
  link_at-child j [] links s h = unfold link_at child_place in refl
  link_at-child j (k ∷ ks) [] s h = absurd (omega arith)
  link_at-child j (k ∷ ks) (c ∷ links) s h = elim (Ordering-cases (keys.cmp k j)) [
    | inl l ↦
        rw
          (
            l,
            binary_search,
            child,
            link_at-after_one c links (binary_search j ks),
            link_at-child j ks links s.1 (omega arith),
          )
          (both c (child j ks links))
    | inr (inl e) ↦
        rw
          (
            e,
            binary_search,
            child,
            child-above j ks links (subst (λ x. All (λ y. x ≺ y) ks) (keys.eq_of_cmp k j e) s.0),
          )
          (unfold link_at child_place in refl)
    | inr (inr g) ↦ rw (g, binary_search, child) (unfold link_at child_place in refl)
  ]
    where
      both :
          (c : C) (o : Option C)
          → or_first c (returned o) ≡ returned (elim o [ none ↦ some c | some d ↦ some d ])
      both c none = refl
      both c (some d) = refl

-- All items of a list of shares, in order.
abbrev pub items_of : {B C : Type 0} → List (C × List B) → List B
items_of [] = []
items_of ((c, share) ∷ shares) = share ++ items_of shares

module _ {K B C : Type 0} ⦃keys : Key K⦄ ⦃cids : Key C⦄ (key_of : B → K)
    (node : BranchNode K C) where
  -- The items that have a child.
  abbrev pub with_child : List B → List B
  with_child [] = []
  with_child (b ∷ batch) = elim (child (key_of b) node.keys node.values) [
    | none ↦ with_child batch
    | some c ↦ b ∷ with_child batch
  ]

  -- Each of the items belongs to the child at the link.
  abbrev pub Belong : C → List B → Type 0
  Belong c = All (λ b. child (key_of b) node.keys node.values ≡ some c)

  abbrev pub Shared : List B → List (C × List B) → Type 0
  Shared batch shares =
      (items_of shares ≡ with_child batch)
      × All (λ share. (1 ≤ length share.1) × Belong share.0 share.1) shares

  abbrev Ready : Option C → List B → Type 0
  Ready none items = items ≡ []
  Ready (some c) items = (1 ≤ length items) × Belong c items

  abbrev Answer : List B → List B → Option (C × List B) × List B → Type 0
  Answer items batch (none, rest) = items ++ with_child batch ≡ []
  Answer items batch (some (c, share), rest) =
      (share ++ with_child rest ≡ items ++ with_child batch)
      × (1 ≤ length share)
      × Belong c share
      × (suc (length rest) ≤ length items + length batch)

  abbrev Answers : List B → Option C → List B → Type 0
  Answers items link batch =
      (r : Option (C × List B) × List B) × (next_in key_of node items link batch ≡ ok r)
      × Answer items batch r

  at_end : (items : List B) (link : Option C) → Ready link items → Answers items link []
  unfolding next_in yielded
  at_end items none h = ((none, []), refl, rw h refl)
  at_end [] (some c) h = absurd (omega (arith, h.0))
  at_end (b ∷ items) (some c) h = ((some (c, b ∷ items), []), refl, (refl, h.0, h.1, omega arith))

  module _ (valid : IsNode node) where
    place :
        (b : B)
        → link_at node.values (binary_search (key_of b) node.keys)
          ≡ returned (child (key_of b) node.keys node.values)
    place b = link_at-child (key_of b) node.keys node.values valid.sorted valid.paired

    dropped :
        (b : B) (batch items : List B) (r : Option (C × List B) × List B)
        → child (key_of b) node.keys node.values ≡ none
        → Answer items batch r
        → Answer items (b ∷ batch) r
    dropped b batch items (none, rest) e h = rw (e, with_child) h
    dropped b batch items (some (c, share), rest) e h =
        (rw (e, with_child) h.0, h.1, h.2, omega (arith, h.3))

    taken :
        (b : B) (batch items : List B) (c : C) (r : Option (C × List B) × List B)
        → child (key_of b) node.keys node.values ≡ some c
        → Answer (items ++ b ∷ []) batch r
        → Answer items (b ∷ batch) r
    taken b batch items c (none, rest) e h =
        rw (e, with_child) (sym (append_assoc items (b ∷ []) (with_child batch)) ∙ h)
    taken b batch items c (some (d, share), rest) e h = (
      rw (e, with_child) (h.0 ∙ append_assoc items (b ∷ []) (with_child batch)),
      h.1,
      h.2,
      omega (arith, h.3, length-append items (b ∷ [])),
    )

    kept :
        (b : B) (batch items : List B) (c : C) (link : Option C)
        → child (key_of b) node.keys node.values ≡ some c
        → Ready link items
        → ((items : List B) (link : Option C) → Ready link items → Answers items link batch)
        → Answers items link (b ∷ batch)
    unfolding next_in
    kept b batch items c none e h rest =
        let (r, ran, a) = rest (items ++ b ∷ []) (some c) (
          omega (arith, length-append items (b ∷ [])),
          All-append_one (λ b. child (key_of b) node.keys node.values ≡ some c) items b (rw h tt) e,
        ) in
        (r, rw (place b, next_in, e) ran, taken b batch items c r e a)
    kept b batch items c (some d) e h rest = elim (Bool-cases (same_key d c)) [
      | inl q ↦
          let dc : d ≡ c = eq_of_same_key d c q in
          let (r, ran, a) = rest (items ++ b ∷ []) (some d) (
            omega (arith, length-append items (b ∷ [])),
            All-append_one (λ b. child (key_of b) node.keys node.values ≡ some d) items b h.1
                (e ∙ ap some (sym dc)),
          ) in
          (r, rw (place b, next_in, e, and_then, q) ran, taken b batch items c r e a)
      | inr q ↦ (
        (some (d, items), b ∷ batch),
        rw (place b, next_in, e, and_then, q) refl,
        (refl, h.0, h.1, omega (arith, h.0)),
      )
    ]

    next_in-lem :
        (batch items : List B) (link : Option C) → Ready link items → Answers items link batch
    unfolding next_in
    next_in-lem [] items link h = at_end items link h
    next_in-lem (b ∷ batch) items link h =
        elim (Option-cases (child (key_of b) node.keys node.values)) [
          | inl e ↦
              let (r, ran, a) = next_in-lem batch items link h in
              (r, rw (place b, next_in, e) ran, dropped b batch items r e a)
          | inr (c, e) ↦
              kept b batch items c link e h (λ items link h. next_in-lem batch items link h)
        ]

    -- On a well-formed branch and any batch, with more fuel than items the iterator ends without a
    -- panic. Its shares are not empty, every item of a share has the share's link as the link of the
    -- last key of the branch that is not above its own, and all shares together are, in order, the
    -- items that have such a key: those with a key below all of the branch are lost.
    pub batches_lem :
        (fuel : ℕ) (batch : List B)
        → suc (length batch) ≤ fuel
        → (shares : List (C × List B)) × (batches key_of fuel node batch ≡ some (ok shares))
          × Shared batch shares
    unfolding batches next
    batches_lem zero batch h = absurd (omega arith)
    batches_lem (suc fuel) batch h =
        let (r, ran, a) = next_in-lem batch [] none refl in
        after r ran a (λ rest l. batches_lem fuel rest l)
      where
        after :
            (r : Option (C × List B) × List B)
            → next_in key_of node [] none batch ≡ ok r
            → Answer [] batch r
            → ((rest : List B)
                → suc (length rest) ≤ fuel
                → (shares : List (C × List B)) × (batches key_of fuel node rest ≡ some (ok shares))
                  × Shared rest shares)
            → (shares : List (C × List B)) × (batches key_of (suc fuel) node batch
                ≡ some (ok shares))
              × Shared batch shares
        after (none, rest) ran a ih = ([], rw ran refl, (sym a, tt))
        after (some (c, share), rest) ran a ih =
            let (shares, ran', shared) = ih rest (omega (arith, a.3)) in
            (
              (c, share) ∷ shares,
              rw (ran, and_run, ran') refl,
              (ap (λ u. share ++ u) shared.0 ∙ a.0, ((a.1, a.2), shared.1)),
            )
