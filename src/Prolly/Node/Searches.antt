-- ===== src/Prolly/Node/Searches.antt =====
-- The binary search for a key in keys that are in order behind some that are below the key.
use rust_defluencer.Base.{
  ℕ, zero, suc, ◌+◌, ◌≡◌, refl, ap, ◌∙◌, inl, inr, List, [], ◌∷◌, ◌++◌, Option, none, some, arith,
  length,
}
use rust_defluencer.Base.Key.{Key, ◌≺◌, same_key, Ordering-cases}
use rust_defluencer.Prolly.Node.{Search, found, absent, after_one, binary_search}
use rust_defluencer.Prolly.Node.Pairs.{All, All-imp, IsSorted, read, read-below}
use rust_defluencer.Prolly.Node.Swaps.{firsts, seconds}

-- A place, further on.
abbrev pub after_all : ℕ → Search → Search
after_all zero s = s
after_all (suc n) s = after_one (after_all n s)

pub after_all-found : (n i : ℕ) → after_all n (found i) ≡ found (n + i)
unfolding after_one
after_all-found zero i = ap found (omega arith)
after_all-found (suc n) i = rw (after_all-found n i) (ap found (omega arith))

pub after_all-absent : (n i : ℕ) → after_all n (absent i) ≡ absent (n + i)
unfolding after_one
after_all-absent zero i = ap absent (omega arith)
after_all-absent (suc n) i = rw (after_all-absent n i) (ap absent (omega arith))

module _ {K V : Type 0} ⦃o : Key K⦄ where
  -- All pairs have keys below `b`.
  abbrev pub Below : K → List (K × V) → Type 0
  Below b = All (λ z. z.0 ≺ b)

  abbrev pub read_at : K → List (K × V) → Option V
  read_at b zs = read b (firsts zs) (seconds zs)

  pub binary_search-append :
      (b : K) (xs ys : List (K × V))
      → Below b xs
      → binary_search b (firsts (xs ++ ys)) ≡ after_all (length xs) (binary_search b (firsts ys))
  unfolding binary_search
  binary_search-append b [] ys h = refl
  binary_search-append b (x ∷ xs) ys h =
      rw (h.0, binary_search, binary_search-append b xs ys h.1) refl

  pub read-append :
      (b : K) (xs ys : List (K × V)) → Below b xs → read_at b (xs ++ ys) ≡ read_at b ys
  unfolding read
  read-append b [] ys h = refl
  read-append b (x ∷ xs) ys h = rw (o.gt_of_lt x.0 b h.0, same_key) (read-append b xs ys h.1)

  -- What a search in pairs in order says.
  abbrev pub Searched : K → List (K × V) → Search → Type 0
  Searched b zs (absent i) = read_at b zs ≡ none
  Searched b zs (found i) =
      (xs : List (K × V)) × (v : V) × (ys : List (K × V)) × (zs ≡ xs ++ (b, v) ∷ ys)
      × (length xs ≡ i)
      × Below b xs
      × (read_at b zs ≡ some v)

  Searched-after_one :
      (b : K) (z : K × V) (zs : List (K × V)) (s : Search)
      → z.0 ≺ b
      → Searched b zs s
      → Searched b (z ∷ zs) (after_one s)
  unfolding after_one
  Searched-after_one b z zs (absent i) l h = read-append b (z ∷ []) zs (l, tt) ∙ h
  Searched-after_one b z zs (found i) l (xs, v, ys, e, n, below, r) = (
    z ∷ xs,
    v,
    ys,
    ap (λ u. z ∷ u) e,
    ap suc n,
    (l, below),
    read-append b (z ∷ []) zs (l, tt) ∙ r,
  )

  pub binary_search-Searched :
      (b : K) (zs : List (K × V))
      → IsSorted (firsts zs)
      → Searched b zs (binary_search b (firsts zs))
  unfolding binary_search
  binary_search-Searched b [] h = unfold read in refl
  binary_search-Searched b (z ∷ zs) h = elim (Ordering-cases (o.cmp z.0 b)) [
    | inl l ↦
        rw (l, binary_search)
          (Searched-after_one b z zs (binary_search b (firsts zs)) l
            (binary_search-Searched b zs h.1))
    | inr (inl e) ↦
        rw (e, binary_search)
          (
            [],
            z.1,
            zs,
            ap (λ k. (k, z.1) ∷ zs) (o.eq_of_cmp z.0 b e),
            refl,
            tt,
            unfold read in rw (o.eq_of_cmp z.0 b e, o.cmp_refl b, same_key) refl,
          )
    | inr (inr g) ↦
        let l : b ≺ z.0 = o.lt_of_gt z.0 b g in
        rw (g, binary_search)
          (read-below b (firsts (z ∷ zs)) (seconds (z ∷ zs))
            (l, All-imp (λ x q. o.lt_trans b z.0 x l q) (firsts zs) h.0))
  ]

pub IsSorted-after :
    {K V : Type 0} ⦃o : Key K⦄ (xs ys : List (K × V))
    → IsSorted (firsts (xs ++ ys))
    → IsSorted (firsts ys)
IsSorted-after [] ys h = h
IsSorted-after (x ∷ xs) ys h = IsSorted-after xs ys h.1
