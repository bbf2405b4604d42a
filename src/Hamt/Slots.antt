-- ===== src/Hamt/Slots.antt =====
-- A node of the trie is a sparse array: its bit map says which indices are there, and the rank of
-- an index is its place in `elements`.
use rust_defluencer.Base.{
  ℕ, zero, suc, ◌≤◌, ◌<◌, ◌≡◌, ◌≢◌, refl, ap, ◌⊎◌, inl, inr, Bool, true, false, none, some, List,
  [], ◌∷◌, ok, arith, get_elem?, set, get_elem?-set_self, get_elem?-set_ne,
  get_elem?-insert_at_self, get_elem?-insert_at_lt, get_elem?-insert_at_ge, get_elem?-remove_at_lt,
  get_elem?-remove_at_ge, Option-cases,
}
use rust_defluencer.LinkedData.Hamt.{Element, HamtNode}
use rust_defluencer.Hamt.{
  bit, set_bit, rank, empty, held, element_slot, slot, add_slot, put_slot, drop_slot,
}

bit-set_bit_self : (m : List Bool) (i : ℕ) (b : Bool) → bit (set_bit m i b) i ≡ b
unfolding bit set_bit
bit-set_bit_self [] zero b = refl
bit-set_bit_self [] (suc i) b = bit-set_bit_self [] i b
bit-set_bit_self (c ∷ cs) zero b = refl
bit-set_bit_self (c ∷ cs) (suc i) b = bit-set_bit_self cs i b

bit-set_bit_ne : (m : List Bool) (i j : ℕ) (b : Bool) → i ≢ j → bit (set_bit m i b) j ≡ bit m j
unfolding bit set_bit
bit-set_bit_ne [] zero zero b h = absurd (h refl)
bit-set_bit_ne [] zero (suc j) b h = refl
bit-set_bit_ne [] (suc i) zero b h = refl
bit-set_bit_ne [] (suc i) (suc j) b h = bit-set_bit_ne [] i j b (λ e. h (ap suc e))
bit-set_bit_ne (c ∷ cs) zero zero b h = absurd (h refl)
bit-set_bit_ne (c ∷ cs) zero (suc j) b h = refl
bit-set_bit_ne (c ∷ cs) (suc i) zero b h = refl
bit-set_bit_ne (c ∷ cs) (suc i) (suc j) b h = bit-set_bit_ne cs i j b (λ e. h (ap suc e))

rank-set_bit_le : (m : List Bool) (i j : ℕ) (b : Bool) → j ≤ i → rank (set_bit m i b) j ≡ rank m j
unfolding rank set_bit
rank-set_bit_le [] zero zero b h = refl
rank-set_bit_le [] zero (suc j) b h = absurd (omega arith)
rank-set_bit_le [] (suc i) zero b h = refl
rank-set_bit_le [] (suc i) (suc j) b h = rank-set_bit_le [] i j b (omega arith)
rank-set_bit_le (c ∷ cs) zero zero b h = refl
rank-set_bit_le (c ∷ cs) zero (suc j) b h = absurd (omega arith)
rank-set_bit_le (c ∷ cs) (suc i) zero b h = refl
rank-set_bit_le (true ∷ cs) (suc i) (suc j) b h = ap suc (rank-set_bit_le cs i j b (omega arith))
rank-set_bit_le (false ∷ cs) (suc i) (suc j) b h = rank-set_bit_le cs i j b (omega arith)

-- Setting a bit that was not set moves the later places up by one.
rank-set_bit_gt :
    (m : List Bool) (i j : ℕ) → i < j → bit m i ≡ false → rank (set_bit m i true) j ≡ suc (rank m j)
unfolding rank set_bit bit
rank-set_bit_gt [] i zero h e = absurd (omega arith)
rank-set_bit_gt [] zero (suc j) h e = refl
rank-set_bit_gt [] (suc i) (suc j) h e = rank-set_bit_gt [] i j (omega arith) refl
rank-set_bit_gt (c ∷ cs) i zero h e = absurd (omega arith)
rank-set_bit_gt (true ∷ cs) zero (suc j) h e = cc
rank-set_bit_gt (false ∷ cs) zero (suc j) h e = refl
rank-set_bit_gt (true ∷ cs) (suc i) (suc j) h e = ap suc (rank-set_bit_gt cs i j (omega arith) e)
rank-set_bit_gt (false ∷ cs) (suc i) (suc j) h e = rank-set_bit_gt cs i j (omega arith) e

-- Clearing a bit that was set moves the later places down by one.
rank-clear_bit_gt :
    (m : List Bool) (i j : ℕ) → i < j → bit m i ≡ true → suc (rank (set_bit m i false) j) ≡ rank m j
unfolding rank set_bit bit
rank-clear_bit_gt [] i j h e = cc
rank-clear_bit_gt (c ∷ cs) i zero h e = absurd (omega arith)
rank-clear_bit_gt (true ∷ cs) zero (suc j) h e = refl
rank-clear_bit_gt (false ∷ cs) zero (suc j) h e = cc
rank-clear_bit_gt (true ∷ cs) (suc i) (suc j) h e =
    ap suc (rank-clear_bit_gt cs i j (omega arith) e)
rank-clear_bit_gt (false ∷ cs) (suc i) (suc j) h e = rank-clear_bit_gt cs i j (omega arith) e

rank_mono : (m : List Bool) (i j : ℕ) → i ≤ j → rank m i ≤ rank m j
unfolding rank
rank_mono [] i j h = omega arith
rank_mono (c ∷ cs) zero j h = omega arith
rank_mono (c ∷ cs) (suc i) zero h = absurd (omega arith)
rank_mono (true ∷ cs) (suc i) (suc j) h = omega (arith, rank_mono cs i j)
rank_mono (false ∷ cs) (suc i) (suc j) h = rank_mono cs i j (omega arith)

-- A set bit takes a place of its own.
rank_lt : (m : List Bool) (i j : ℕ) → i < j → bit m i ≡ true → rank m i < rank m j
unfolding rank bit
rank_lt [] i j h e = cc
rank_lt (c ∷ cs) i zero h e = absurd (omega arith)
rank_lt (true ∷ cs) zero (suc j) h e = omega arith
rank_lt (false ∷ cs) zero (suc j) h e = cc
rank_lt (true ∷ cs) (suc i) (suc j) h e = omega (arith, rank_lt cs i j (omega arith) e)
rank_lt (false ∷ cs) (suc i) (suc j) h e = rank_lt cs i j (omega arith) e

rank_ne : (m : List Bool) (i j : ℕ) → i ≢ j → bit m i ≡ true → bit m j ≡ true → rank m i ≢ rank m j
rank_ne m i j h p q e = elim (order (omega arith)) [
  | inl lt ↦ omega (arith, rank_lt m i j lt p)
  | inr gt ↦ omega (arith, rank_lt m j i gt q)
]
  where
    order : i ≢ j → (i < j) ⊎ (j < i)
    order n = grind arith

get_elem?-set_or {ℓ} :
    {A : Type ℓ} (xs : List A) (i : ℕ) (v : A)
    → (get_elem? xs i ≡ none) ⊎ (get_elem? (set xs i v) i ≡ some v)
get_elem?-set_or xs i v = elim (Option-cases (get_elem? xs i)) [
  | inl gone ↦ inl gone
  | inr (w, there) ↦ inr (get_elem?-set_self xs i v w there)
]

module _ {C : Type 0} where
  pub slot-add_slot_self :
      (node : HamtNode C) (i : ℕ) (e : Element C) {node' : HamtNode C}
      → add_slot node i e ≡ ok node'
      → slot node' i ≡ held e
  unfolding slot add_slot element_slot
  slot-add_slot_self node i e h = ground (
    arith,
    bit-set_bit_self node.map i true,
    rank-set_bit_le node.map i i true,
    get_elem?-insert_at_self node.elements (rank node.map i) e,
  )

  pub slot-add_slot_ne :
      (node : HamtNode C) (i j : ℕ) (e : Element C) {node' : HamtNode C}
      → slot node i ≡ empty
      → i ≢ j
      → add_slot node i e ≡ ok node'
      → slot node' j ≡ slot node j
  unfolding slot add_slot element_slot
  slot-add_slot_ne node i j e s n h = ground (
    arith,
    bit-set_bit_ne node.map i j true n,
    rank-set_bit_le node.map i j true,
    rank-set_bit_gt node.map i j,
    rank_mono node.map i j,
    rank_lt node.map j i,
    get_elem?-insert_at_lt node.elements (rank node.map i) (rank node.map j) e,
    get_elem?-insert_at_ge node.elements (rank node.map i) (rank node.map j) e,
  )

  pub slot-put_slot_self :
      (node : HamtNode C) (i : ℕ) (e d : Element C)
      → slot node i ≡ held d
      → slot (put_slot node i e) i ≡ held e
  unfolding slot put_slot
  slot-put_slot_self node i e d h =
      ground (arith, get_elem?-set_or node.elements (rank node.map i) e)

  pub slot-put_slot_ne :
      (node : HamtNode C) (i j : ℕ) (e d : Element C)
      → slot node i ≡ held d
      → i ≢ j
      → slot (put_slot node i e) j ≡ slot node j
  unfolding slot put_slot
  slot-put_slot_ne node i j e d h n = ground (
    arith,
    rank_ne node.map i j n,
    get_elem?-set_ne node.elements (rank node.map i) (rank node.map j) e,
  )

  pub slot-drop_slot_self : (node : HamtNode C) (i : ℕ) → slot (drop_slot node i) i ≡ empty
  unfolding slot drop_slot
  slot-drop_slot_self node i = ground (arith, bit-set_bit_self node.map i false)

  pub slot-drop_slot_ne :
      (node : HamtNode C) (i j : ℕ) (d : Element C)
      → slot node i ≡ held d
      → i ≢ j
      → slot (drop_slot node i) j ≡ slot node j
  unfolding slot drop_slot element_slot
  slot-drop_slot_ne node i j d s n = ground (
    arith,
    bit-set_bit_ne node.map i j false n,
    rank-set_bit_le node.map i j false,
    rank-clear_bit_gt node.map i j,
    rank_lt node.map i j,
    rank_lt node.map j i,
    get_elem?-remove_at_lt node.elements (rank node.map i) (rank node.map j),
    get_elem?-remove_at_ge node.elements (rank node.map i) (rank (set_bit node.map i false) j),
  )
