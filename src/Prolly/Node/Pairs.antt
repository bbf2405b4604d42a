-- ===== src/Prolly/Node/Pairs.antt =====
-- A node as a finite map, and what one write does to it.
use mathlib.Core.Path.{subst}
use rust_defluencer.Base.{
  ℕ, suc, ◌≡◌, refl, ap, inl, inr, true, List, [], ◌∷◌, ◌++◌, Option, none, some, arith,
  if◌then◌else◌, length,
}
use rust_defluencer.Base.Key.{Key, ◌≺◌, same_key, Ordering-cases}
use rust_defluencer.Prolly.Node.{
  Search, found, absent, after_one, binary_search, write_at, fits, erase_at, holds,
}

abbrev pub All : {A : Type 0} → (A → Type 0) → List A → Type 0
All P [] = Unit
All P (x ∷ xs) = P x × All P xs

pub All-imp :
    {A : Type 0} {P Q : A → Type 0} → ((a : A) → P a → Q a) → (xs : List A) → All P xs → All Q xs
All-imp f [] h = tt
All-imp f (x ∷ xs) h = (f x h.0, All-imp f xs h.1)

pub All-append_one :
    {A : Type 0} (P : A → Type 0) (xs : List A) (x : A) → All P xs → P x → All P (xs ++ x ∷ [])
All-append_one P [] x h p = (p, tt)
All-append_one P (y ∷ xs) x h p = (h.0, All-append_one P xs x h.1 p)

pub All-both :
    {A : Type 0} {P Q R : A → Type 0}
    → ((a : A) → P a → Q a → R a)
    → (xs : List A) → All P xs
    → All Q xs
    → All R xs
All-both f [] h k = tt
All-both f (x ∷ xs) h k = (f x h.0 k.0, All-both f xs h.1 k.1)

pub All-append :
    {A : Type 0} (P : A → Type 0) (xs ys : List A) → All P xs → All P ys → All P (xs ++ ys)
All-append P [] ys h k = k
All-append P (x ∷ xs) ys h k = (h.0, All-append P xs ys h.1 k)

pub All-intro : {A : Type 0} (P : A → Type 0) → ((a : A) → P a) → (xs : List A) → All P xs
All-intro P h [] = tt
All-intro P h (x ∷ xs) = (h x, All-intro P h xs)

pub write_at-after_one :
    {A : Type 0} (x : A) (xs : List A) (s : Search) (v : A)
    → write_at (x ∷ xs) (after_one s) v ≡ x ∷ write_at xs s v
unfolding write_at after_one
write_at-after_one x xs (found i) v = refl
write_at-after_one x xs (absent i) v = refl

-- The place of a key fits a list that is as long as the keys.
pub binary_search-fits :
    {K T : Type 0} ⦃o : Key K⦄ (key : K) (ks : List K) (vs : List T)
    → length ks ≡ length vs
    → fits (binary_search key ks) (length vs) ≡ true
unfolding binary_search fits after_one
binary_search-fits key [] [] h = refl
binary_search-fits key [] (v ∷ vs) h = absurd (omega arith)
binary_search-fits key (k ∷ ks) [] h = absurd (omega arith)
binary_search-fits ⦃o⦄ key (k ∷ ks) (v ∷ vs) h = elim (Ordering-cases (o.cmp k key)) [
  | inl l ↦
      rw (l, binary_search)
        (one_more (binary_search key ks) (length vs) (binary_search-fits key ks vs (omega arith)))
  | inr (inl e) ↦ rw (e, binary_search) (ground arith)
  | inr (inr g) ↦ rw (g, binary_search) (ground arith)
]
  where
    one_more : (s : Search) (n : ℕ) → fits s n ≡ true → fits (after_one s) (suc n) ≡ true
    one_more (found i) n f = ground arith
    one_more (absent i) n f = ground arith

module _ {K : Type 0} ⦃o : Key K⦄ where
  -- Keys in ascending order, without repetition.
  abbrev pub IsSorted : List K → Type 0
  IsSorted [] = Unit
  IsSorted (k ∷ ks) = All (λ x. k ≺ x) ks × IsSorted ks

  -- What a node has at a key.
  unfoldable pub read : {T : Type 0} → K → List K → List T → Option T
  read j [] vs = none
  read j (k ∷ ks) [] = none
  read j (k ∷ ks) (v ∷ vs) = if same_key j k then some v else read j ks vs

  pub All-write_at :
      (P : K → Type 0) (key : K) (ks : List K)
      → P key
      → All P ks
      → All P (write_at ks (binary_search key ks) key)
  unfolding binary_search
  All-write_at P key [] p a = unfold write_at in (p, tt)
  All-write_at P key (k ∷ ks) p a = elim (Ordering-cases (o.cmp k key)) [
    | inl l ↦
        rw (l, binary_search)
          (rw (write_at-after_one k ks (binary_search key ks) key)
            (a.0, All-write_at P key ks p a.1))
    | inr (inl e) ↦ rw (e, binary_search) (unfold write_at in (p, a.1))
    | inr (inr g) ↦ rw (g, binary_search) (unfold write_at in (p, a))
  ]

  pub write_at-IsSorted :
      (key : K) (ks : List K) → IsSorted ks → IsSorted (write_at ks (binary_search key ks) key)
  unfolding binary_search
  write_at-IsSorted key [] h = unfold write_at in (tt, tt)
  write_at-IsSorted key (k ∷ ks) h = elim (Ordering-cases (o.cmp k key)) [
    | inl l ↦
        rw (l, binary_search)
          (rw (write_at-after_one k ks (binary_search key ks) key)
            (All-write_at (λ x. k ≺ x) key ks l h.0, write_at-IsSorted key ks h.1))
    | inr (inl e) ↦
        rw (e, binary_search)
          (unfold write_at in subst (λ x. IsSorted (x ∷ ks)) (o.eq_of_cmp k key e) h)
    | inr (inr g) ↦
        rw (g, binary_search)
          (unfold write_at in
            let key-lt : key ≺ k = o.lt_of_gt k key g in
            ((key-lt, All-imp (λ x q. o.lt_trans key k x key-lt q) ks h.0), h))
  ]

  -- After a write, the key reads as the new value and every other key as before.
  pub read-write_at :
      {T : Type 0} (j key : K) (v : T) (ks : List K) (vs : List T)
      → length ks ≡ length vs
      → read j (write_at ks (binary_search key ks) key) (write_at vs (binary_search key ks) v)
        ≡ (if same_key j key then some v else read j ks vs)
  unfolding binary_search read
  read-write_at j key v [] [] h = unfold write_at in refl
  read-write_at j key v [] (w ∷ vs) h = absurd (omega arith)
  read-write_at j key v (k ∷ ks) [] h = absurd (omega arith)
  read-write_at j key v (k ∷ ks) (w ∷ vs) h = elim (Ordering-cases (o.cmp k key)) [
    | inl l ↦
        rw (l, binary_search)
          (rw
            (
              write_at-after_one k ks (binary_search key ks) key,
              write_at-after_one w vs (binary_search key ks) v,
              read-write_at j key v ks vs (omega arith),
            )
            (ground (arith, l, o.eq_of_cmp j k, o.eq_of_cmp j key, o.cmp_refl key)))
    | inr (inl e) ↦ rw (e, binary_search) (unfold write_at in ground (arith, o.eq_of_cmp k key e))
    | inr (inr g) ↦ rw (g, binary_search) (unfold write_at in refl)
  ]

  pub length-write_at :
      {T : Type 0} (key : K) (v : T) (ks : List K) (vs : List T)
      → length ks ≡ length vs
      → length (write_at ks (binary_search key ks) key)
        ≡ length (write_at vs (binary_search key ks) v)
  unfolding binary_search
  length-write_at key v [] [] h = unfold write_at in refl
  length-write_at key v [] (w ∷ vs) h = absurd (omega arith)
  length-write_at key v (k ∷ ks) [] h = absurd (omega arith)
  length-write_at key v (k ∷ ks) (w ∷ vs) h = elim (Ordering-cases (o.cmp k key)) [
    | inl l ↦
        rw (l, binary_search)
          (rw
            (
              write_at-after_one k ks (binary_search key ks) key,
              write_at-after_one w vs (binary_search key ks) v,
            )
            (ap suc (length-write_at key v ks vs (omega arith))))
    | inr (inl e) ↦ rw (e, binary_search) (unfold write_at in h)
    | inr (inr g) ↦ rw (g, binary_search) (unfold write_at in ap suc h)
  ]

erase_at-after_one :
    {A : Type 0} (x : A) (xs : List A) (s : Search)
    → erase_at (x ∷ xs) (after_one s) ≡ x ∷ erase_at xs s
unfolding erase_at after_one
erase_at-after_one x xs (found i) = refl
erase_at-after_one x xs (absent i) = refl

holds-fits : (s : Search) (n : ℕ) → fits s n ≡ true → holds s n ≡ true
unfolding fits holds
holds-fits (found i) n h = h
holds-fits (absent i) n h = refl

module _ {K : Type 0} ⦃o : Key K⦄ where
  pub binary_search-holds :
      {T : Type 0} (key : K) (ks : List K) (vs : List T)
      → length ks ≡ length vs
      → holds (binary_search key ks) (length vs) ≡ true
  binary_search-holds key ks vs h =
      holds-fits (binary_search key ks) (length vs) (binary_search-fits key ks vs h)

  All-erase_at :
      (P : K → Type 0) (key : K) (ks : List K)
      → All P ks
      → All P (erase_at ks (binary_search key ks))
  unfolding binary_search
  All-erase_at P key [] a = unfold erase_at in tt
  All-erase_at P key (k ∷ ks) a = elim (Ordering-cases (o.cmp k key)) [
    | inl l ↦
        rw (l, binary_search)
          (rw (erase_at-after_one k ks (binary_search key ks)) (a.0, All-erase_at P key ks a.1))
    | inr (inl e) ↦ rw (e, binary_search) (unfold erase_at in a.1)
    | inr (inr g) ↦ rw (g, binary_search) (unfold erase_at in a)
  ]

  pub erase_at-IsSorted :
      (key : K) (ks : List K) → IsSorted ks → IsSorted (erase_at ks (binary_search key ks))
  unfolding binary_search
  erase_at-IsSorted key [] h = unfold erase_at in tt
  erase_at-IsSorted key (k ∷ ks) h = elim (Ordering-cases (o.cmp k key)) [
    | inl l ↦
        rw (l, binary_search)
          (rw (erase_at-after_one k ks (binary_search key ks))
            (All-erase_at (λ x. k ≺ x) key ks h.0, erase_at-IsSorted key ks h.1))
    | inr (inl e) ↦ rw (e, binary_search) (unfold erase_at in h.1)
    | inr (inr g) ↦ rw (g, binary_search) (unfold erase_at in h)
  ]

  pub length-erase_at :
      {T : Type 0} (key : K) (ks : List K) (vs : List T)
      → length ks ≡ length vs
      → length (erase_at ks (binary_search key ks)) ≡ length (erase_at vs (binary_search key ks))
  unfolding binary_search
  length-erase_at key [] [] h = unfold erase_at in refl
  length-erase_at key [] (w ∷ vs) h = absurd (omega arith)
  length-erase_at key (k ∷ ks) [] h = absurd (omega arith)
  length-erase_at key (k ∷ ks) (w ∷ vs) h = elim (Ordering-cases (o.cmp k key)) [
    | inl l ↦
        rw (l, binary_search)
          (rw
            (
              erase_at-after_one k ks (binary_search key ks),
              erase_at-after_one w vs (binary_search key ks),
            )
            (ap suc (length-erase_at key ks vs (omega arith))))
    | inr (inl e) ↦ rw (e, binary_search) (unfold erase_at in omega arith)
    | inr (inr g) ↦ rw (g, binary_search) (unfold erase_at in h)
  ]

  -- A key below all others is not there.
  pub read-below :
      {T : Type 0} (j : K) (ks : List K) (vs : List T) → All (λ x. j ≺ x) ks → read j ks vs ≡ none
  unfolding read
  read-below j [] vs a = refl
  read-below j (k ∷ ks) [] a = refl
  read-below j (k ∷ ks) (v ∷ vs) a = ground (arith, read-below j ks vs a.1)

  -- After a removal, the key is not there and every other key reads as before.
  pub read-erase_at :
      {T : Type 0} (j key : K) (ks : List K) (vs : List T)
      → length ks ≡ length vs
      → IsSorted ks
      → read j (erase_at ks (binary_search key ks)) (erase_at vs (binary_search key ks))
        ≡ (if same_key j key then none else read j ks vs)
  unfolding binary_search read
  read-erase_at j key [] [] h s = unfold erase_at in ground arith
  read-erase_at j key [] (w ∷ vs) h s = absurd (omega arith)
  read-erase_at j key (k ∷ ks) [] h s = absurd (omega arith)
  read-erase_at {T} j key (k ∷ ks) (w ∷ vs) h s = elim (Ordering-cases (o.cmp k key)) [
    | inl l ↦
        rw (l, binary_search)
          (rw
            (
              erase_at-after_one k ks (binary_search key ks),
              erase_at-after_one w vs (binary_search key ks),
              read-erase_at j key ks vs (omega arith) s.1,
            )
            (ground (arith, l, o.eq_of_cmp j k, o.eq_of_cmp j key, o.cmp_refl key)))
    | inr (inl e) ↦
        rw (e, binary_search)
          (unfold erase_at in
            ground (arith, o.eq_of_cmp k key e, o.eq_of_cmp j key, above (o.eq_of_cmp k key e)))
    | inr (inr g) ↦
        rw (g, binary_search)
          (unfold erase_at in ground (arith, o.eq_of_cmp j key, below (o.lt_of_gt k key g)))
  ]
    where
      above : k ≡ key → read key ks vs ≡ none
      above e = read-below key ks vs (subst (λ x. All (λ y. x ≺ y) ks) e s.0)

      below : key ≺ k → read key (k ∷ ks) (w ∷ vs) ≡ none
      below l = read-below key (k ∷ ks) (w ∷ vs) (l, All-imp (λ x q. o.lt_trans key k x l q) ks s.0)
