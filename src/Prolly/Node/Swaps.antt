-- ===== src/Prolly/Node/Swaps.antt =====
-- Keys and values of a list of pairs, and a swap of two pairs in both.
use rust_defluencer.Base.{
  ℕ, zero, suc, ◌≡◌, refl, sym, ap, subst, ◌∙◌, List, [], ◌∷◌, ◌++◌, Option, none, some, arith,
  length, length-append, append_assoc, append_nil, get_elem?, set, take, ok, and_then,
}
use rust_defluencer.Prolly.Node.{TreeNode, swap, zip}
use rust_defluencer.Prolly.Node.Pairs.{All, All-append_one}

module _ {A B : Type 0} (field : A → B) where
  abbrev fields : List A → List B
  fields [] = []
  fields (z ∷ zs) = field z ∷ fields zs

  fields-append : (xs ys : List A) → fields (xs ++ ys) ≡ fields xs ++ fields ys
  fields-append [] ys = refl
  fields-append (x ∷ xs) ys = ap (λ u. field x ∷ u) (fields-append xs ys)

  length-fields : (xs : List A) → length (fields xs) ≡ length xs
  length-fields [] = refl
  length-fields (x ∷ xs) = ap suc (length-fields xs)

  get_elem?-fields :
      (xs : List A) (i : ℕ) (x : A)
      → get_elem? xs i ≡ some x
      → get_elem? (fields xs) i ≡ some (field x)
  get_elem?-fields [] i x h = cc
  get_elem?-fields (y ∷ xs) zero x h = cc
  get_elem?-fields (y ∷ xs) (suc i) x h = get_elem?-fields xs i x h

  set-fields : (xs : List A) (i : ℕ) (x : A) → set (fields xs) i (field x) ≡ fields (set xs i x)
  set-fields [] i x = refl
  set-fields (y ∷ xs) zero x = refl
  set-fields (y ∷ xs) (suc i) x = ap (λ u. field y ∷ u) (set-fields xs i x)

  swap-fields :
      (xs : List A) (i j : ℕ) (x y : A)
      → get_elem? xs i ≡ some x
      → get_elem? xs j ≡ some y
      → swap (fields xs) i j ≡ ok (fields (set (set xs i y) j x))
  unfolding swap
  swap-fields xs i j x y h k =
      rw
        (
          get_elem?-fields xs i x h,
          get_elem?-fields xs j y k,
          and_then,
          set-fields xs i y,
          set-fields (set xs i y) j x,
        )
        refl

module _ {K V : Type 0} where
  abbrev pub firsts : List (K × V) → List K
  firsts = fields (λ z. z.0)

  abbrev pub seconds : List (K × V) → List V
  seconds = fields (λ z. z.1)

  abbrev pub of_pairs : List (K × V) → TreeNode K V
  of_pairs zs = record { keys = firsts zs; values = seconds zs }

  -- The keys of a batch that have a value, with it.
  abbrev pub hits : (K → Option V) → List K → List (K × V)
  hits f [] = []
  hits f (b ∷ batch) = elim (f b) [ none ↦ hits f batch | some v ↦ (b, v) ∷ hits f batch ]

  pub zip-firsts : (zs : List (K × V)) → zip (firsts zs) (seconds zs) ≡ zs
  unfolding zip
  zip-firsts [] = refl
  zip-firsts (z ∷ zs) = ap (λ u. z ∷ u) (zip-firsts zs)

  pub firsts-zip : (ks : List K) (vs : List V) → length ks ≡ length vs → firsts (zip ks vs) ≡ ks
  unfolding zip
  firsts-zip [] vs h = refl
  firsts-zip (k ∷ ks) [] h = absurd (omega arith)
  firsts-zip (k ∷ ks) (v ∷ vs) h = ap (λ u. k ∷ u) (firsts-zip ks vs (omega arith))

  pub seconds-zip : (ks : List K) (vs : List V) → length ks ≡ length vs → seconds (zip ks vs) ≡ vs
  unfolding zip
  seconds-zip [] [] h = refl
  seconds-zip [] (v ∷ vs) h = absurd (omega arith)
  seconds-zip (k ∷ ks) [] h = absurd (omega arith)
  seconds-zip (k ∷ ks) (v ∷ vs) h = ap (λ u. v ∷ u) (seconds-zip ks vs (omega arith))

module _ {A : Type 0} where
  get_elem?-length :
      (xs : List A) (y : A) (ys : List A) → get_elem? (xs ++ y ∷ ys) (length xs) ≡ some y
  get_elem?-length [] y ys = refl
  get_elem?-length (x ∷ xs) y ys = get_elem?-length xs y ys

  set-length :
      (xs : List A) (y : A) (ys : List A) (z : A) → set (xs ++ y ∷ ys) (length xs) z ≡ xs ++ z ∷ ys
  set-length [] y ys z = refl
  set-length (x ∷ xs) y ys z = ap (λ u. x ∷ u) (set-length xs y ys z)

  take-length : (xs ys : List A) → take (length xs) (xs ++ ys) ≡ xs
  take-length [] ys = refl
  take-length (x ∷ xs) ys = ap (λ u. x ∷ u) (take-length xs ys)

  get_elem?-second :
      (xs : List A) (m : A) (ms : List A) (y : A) (ys : List A)
      → get_elem? (xs ++ m ∷ (ms ++ y ∷ ys)) (length (xs ++ m ∷ ms)) ≡ some y
  get_elem?-second xs m ms y ys =
      subst (λ u. get_elem? u (length (xs ++ m ∷ ms)) ≡ some y) (append_assoc xs (m ∷ ms) (y ∷ ys))
        (get_elem?-length (xs ++ m ∷ ms) y ys)

  set-second :
      (xs : List A) (m n : A) (ms : List A) (y : A) (ys : List A) (z : A)
      → set (xs ++ n ∷ (ms ++ y ∷ ys)) (length (xs ++ m ∷ ms)) z ≡ xs ++ n ∷ (ms ++ z ∷ ys)
  set-second [] m n ms y ys z = ap (λ u. n ∷ u) (set-length ms y ys z)
  set-second (x ∷ xs) m n ms y ys z = ap (λ u. x ∷ u) (set-second xs m n ms y ys z)

pub take-fields :
    {A B : Type 0} (field : A → B) (xs ys : List A)
    → take (length xs) (fields field (xs ++ ys)) ≡ fields field xs
take-fields field [] ys = refl
take-fields field (x ∷ xs) ys = ap (λ u. field x ∷ u) (take-fields field xs ys)

pub length_more : {A : Type 0} (xs : List A) (x : A) → length (xs ++ x ∷ []) ≡ suc (length xs)
length_more xs x = omega (arith, length-append xs (x ∷ []))

-- One swap of a pair to the end of those that are kept, in keys and in values.
module _ {A B : Type 0} (field : A → B) (kept : List A) (p : A) (rest : List A) where
  swap_first :
      swap (fields field (kept ++ p ∷ rest)) (length kept) (length (kept ++ []))
      ≡ ok (fields field ((kept ++ p ∷ []) ++ rest))
  swap_first =
      let there = get_elem?-length kept p rest in
      rw (append_nil kept) (
        swap-fields field (kept ++ p ∷ rest) (length kept) (length kept) p p there there
        ∙ ap (λ u. ok (fields field u))
            (ap (λ u. set u (length kept) p) (set-length kept p rest p)
              ∙ set-length kept p rest p
              ∙ sym (append_assoc kept (p ∷ []) rest)))

  swap_later :
      (m : A) (ms : List A)
      → swap (fields field (kept ++ m ∷ (ms ++ p ∷ rest))) (length kept) (length (kept ++ m ∷ ms))
        ≡ ok (fields field ((kept ++ p ∷ []) ++ ((ms ++ m ∷ []) ++ rest)))
  swap_later m ms =
      let all = kept ++ m ∷ (ms ++ p ∷ rest) in
      let place = length (kept ++ m ∷ ms) in
      swap-fields field all (length kept) place m p (get_elem?-length kept m (ms ++ p ∷ rest))
        (get_elem?-second kept m ms p rest)
      ∙ ap (λ u. ok (fields field u))
          (ap (λ u. set u place m) (set-length kept m (ms ++ p ∷ rest) p)
            ∙ set-second kept m p ms p rest m
            ∙ ap (λ u. kept ++ p ∷ u) (sym (append_assoc ms (m ∷ []) rest))
            ∙ sym (append_assoc kept (p ∷ []) ((ms ++ m ∷ []) ++ rest)))

module _ {K V : Type 0} (kept : List (K × V)) (p : K × V) (rest : List (K × V)) where
  abbrev Swapped : List (K × V) → Type 1
  Swapped ms =
      (ms' : List (K × V)) × (swap (firsts (kept ++ (ms ++ p ∷ rest))) (length kept)
          (length (kept ++ ms))
        ≡ ok (firsts ((kept ++ p ∷ []) ++ (ms' ++ rest))))
      × (swap (seconds (kept ++ (ms ++ p ∷ rest))) (length kept) (length (kept ++ ms))
          ≡ ok (seconds ((kept ++ p ∷ []) ++ (ms' ++ rest))))
      × ((P : K × V → Type 0) → All P ms → All P ms')

  pub swapped : (ms : List (K × V)) → Swapped ms
  swapped [] = ([], swap_first (λ z. z.0) kept p rest, swap_first (λ z. z.1) kept p rest, λ P a. a)
  swapped (m ∷ ms) = (
    ms ++ m ∷ [],
    swap_later (λ z. z.0) kept p rest m ms,
    swap_later (λ z. z.1) kept p rest m ms,
    λ P a. All-append_one P ms m a.1 a.0,
  )
