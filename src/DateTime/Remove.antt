-- ===== src/DateTime/Remove.antt =====
-- `remove` of the chronological index below the year: what each level answers and stores.
use rust_defluencer.Base.{
  ◌≡◌, refl, ◌∙◌, ap, subst, inl, inr, Bool, true, false, not, ◌&&◌, Option, none, some, List, [],
  ◌∷◌, if◌then◌else◌, Bool-cases, and-true, and_false, and_then-returned, returned_unique, ok, pure,
  Ensures, Ensures-bind, Post-imp,
}
use rust_defluencer.Base.Key.{Key, same_key, eq_of_same_key}
use rust_defluencer.Base.Sets.{
  set_contains, set_remove, map_get, set_contains-set_remove, map_get-map_insert,
  map_get-map_remove,
}
use rust_defluencer.Ipfs.{
  Ipfs, Linked, Grows, Grows-refl, Grows-trans, get_or, dag_put, dag_get, dag_put-Ensures,
}
use rust_defluencer.LinkedData.DateTime.{Level, Seconds}
use rust_defluencer.DateTime.{
  Codecs, with_link, with_set, put_rest, remove_from_second, put_left, remove_in,
}
use rust_defluencer.DateTime.Paths.{Paths, into, look, same_path}
use rust_defluencer.DateTime.Growth.{remove_in-Growing}
use rust_defluencer.DateTime.Contents.{in_set, contains_in, contains_in-Grows}

module _ {C S T V : Type 0} (ipfs : Ipfs C S) (codec : Linked ipfs.Block T)
    (make : List V → T) where
  -- What `put_rest` stores, or leaves out, reads as what was to be stored.
  put_rest-Ensures :
      (vs : List V) (s : S)
      → Ensures
          (λ (o : Option C) s'.
            (get_or ipfs codec (ok (make [])) o s' ≡ ok (make vs)) × Grows ipfs s s')
          (put_rest ipfs codec (make vs) vs s)
  unfolding put_rest
  put_rest-Ensures [] s = (refl, Grows-refl ipfs s)
  put_rest-Ensures (v ∷ vs) s =
      Ensures-bind
        (λ (c : C) (u : S). (dag_get ipfs codec c u ≡ ok (make (v ∷ vs))) × Grows ipfs s u)
        (λ (o : Option C) s'.
          (get_or ipfs codec (ok (make [])) o s' ≡ ok (make (v ∷ vs))) × Grows ipfs s s')
        (dag_put ipfs codec (make (v ∷ vs))) (λ cid. pure (some cid)) s
        (dag_put-Ensures ipfs codec (make (v ∷ vs)) s) (λ c _ put. put)

module _ {K C S : Type 0} ⦃numbers : Key K⦄ ⦃links : Key C⦄ (ipfs : Ipfs C S)
    (codecs : Codecs ipfs.Block K C) where
  abbrev level_of : List (K × C) → Level K C
  level_of es = record { entries = es }

  abbrev seconds_of : List (K × List C) → Seconds K C
  seconds_of es = record { second = es }

  -- Nothing is found below a missing link.
  pub contains_in-none :
      (path : List (K × Linked ipfs.Block (Level K C))) (t : K) (a : C) (s : S)
      → contains_in ipfs codecs path t a none s ≡ ok false
  unfolding contains_in map_get
  contains_in-none [] t a s = refl
  contains_in-none ((k, codec) ∷ path) t a s = contains_in-none path t a s

  module _ (second t : K) (rem a : C) where
    abbrev pub same_at : Paths ipfs.Block K C → Bool
    same_at ps = same_path ps (same_key t second && same_key a rem)

    -- What the answer of a removal says of what is read afterwards, and of what was there.
    abbrev Left : Paths ipfs.Block K C → Bool → Option (Bool × Option C) → S → Type 0
    Left ps x none s' = (not (same_at ps) && x) ≡ x
    Left ps x (some (result, o)) s' =
        (contains_in ipfs codecs (look ps) t a o s' ≡ ok (not (same_at ps) && x))
        × (same_at ps ≡ true → result ≡ x)

    abbrev pub Removed : Paths ipfs.Block K C → Bool → S → Option (Bool × Option C) → S → Type 0
    Removed ps x s answer s' = Left ps x answer s' × Grows ipfs s s'

    in_set-with_set :
        (seconds : Seconds K C) (new : List C)
        → in_set a (map_get t (with_set second seconds new).second)
          ≡ (if same_key t second then set_contains a new else in_set a (map_get t seconds.second))
    unfolding set_contains
    in_set-with_set seconds [] = elim (Bool-cases (same_key t second)) [
      | inl q ↦ rw (map_get-map_remove t second seconds.second, q) refl
      | inr q ↦ rw (map_get-map_remove t second seconds.second, q) refl
    ]
    in_set-with_set seconds (c ∷ new) = elim (Bool-cases (same_key t second)) [
      | inl q ↦ rw (map_get-map_insert t second (c ∷ new) seconds.second, q) refl
      | inr q ↦ rw (map_get-map_insert t second (c ∷ new) seconds.second, q) refl
    ]

    -- What is at the second, for a key that is the second.
    there :
        (seconds : Seconds K C) (o : Option (List C))
        → map_get second seconds.second ≡ o
        → same_key t second ≡ true
        → map_get t seconds.second ≡ o
    there seconds o e q = ap (λ u. map_get u seconds.second) (eq_of_same_key t second q) ∙ e

    in_set_remove :
        (seconds : Seconds K C) (set : List C)
        → map_get second seconds.second ≡ some set
        → in_set a (map_get t (with_set second seconds (set_remove rem set)).second)
          ≡ (not (same_key t second && same_key a rem) && in_set a (map_get t seconds.second))
    in_set_remove seconds set e = elim (Bool-cases (same_key t second)) [
      | inl q ↦
          rw (in_set-with_set seconds (set_remove rem set), q, there seconds (some set) e q)
            (set_contains-set_remove a rem set)
      | inr q ↦ rw (in_set-with_set seconds (set_remove rem set), q) refl
    ]

    not_there :
        (seconds : Seconds K C)
        → map_get second seconds.second ≡ none
        → (not (same_key t second && same_key a rem) && in_set a (map_get t seconds.second))
          ≡ in_set a (map_get t seconds.second)
    not_there seconds e = elim (Bool-cases (same_key t second)) [
      | inl q ↦ rw (q, there seconds none e q) (and_false (not (same_key a rem)))
      | inr q ↦ rw q refl
    ]

    answer_of_same :
        (seconds : Seconds K C) (set : List C)
        → map_get second seconds.second ≡ some set
        → (same_key t second && same_key a rem) ≡ true
        → set_contains rem set ≡ in_set a (map_get t seconds.second)
    answer_of_same seconds set e same =
        let (q, p) = and-true (same_key t second) (same_key a rem) same in
        rw (there seconds (some set) e q, eq_of_same_key a rem p) refl

    remove_from_second-Ensures :
        (seconds : Seconds K C) (o : Option (List C)) (s : S)
        → map_get second seconds.second ≡ o
        → Ensures
            (Removed [] (in_set a (map_get t seconds.second)) s)
            (remove_from_second ipfs codecs second rem seconds o s)
    unfolding remove_from_second contains_in
    remove_from_second-Ensures seconds none s e = (not_there seconds e, Grows-refl ipfs s)
    remove_from_second-Ensures seconds (some set) s e =
        let rest = with_set second seconds (set_remove rem set) in
        Ensures-bind
          (λ (o : Option C) s'.
            (get_or ipfs codecs.seconds (ok (seconds_of [])) o s' ≡ ok rest) × Grows ipfs s s')
          (Removed [] (in_set a (map_get t seconds.second)) s)
          (put_rest ipfs codecs.seconds rest rest.second)
          (λ o. pure (some (set_contains rem set, o))) s
          (put_rest-Ensures ipfs codecs.seconds seconds_of rest.second s)
          (λ o _ put.
            ((rw put.0 (ap ok (in_set_remove seconds set e)), answer_of_same seconds set e), put.1))

    -- What the answer from the level below must say for the level above.
    abbrev pub Below :
        Paths ipfs.Block K C → K → K → Level K C → Bool → Option (Bool × Option C) → S → Type 0
    Below ps k j level x none u = (not (same_key j k && same_at ps) && x) ≡ x
    Below ps k j level x (some (result, o)) u =
        (contains_in ipfs codecs (look ps) t a (if same_key j k then o else map_get j level.entries)
            u
          ≡ ok (not (same_key j k && same_at ps) && x))
        × ((same_key j k && same_at ps) ≡ true → result ≡ x)

    Below-same :
        (ps : Paths ipfs.Block K C) (k j : K) (level : Level K C) (x : Bool)
        (r : Option (Bool × Option C)) (u : S)
        → same_key j k ≡ true
        → Left ps x r u
        → Below ps k j level x r u
    Below-same ps k j level x none u q h = rw q h
    Below-same ps k j level x (some (result, o)) u q h = rw q h

    Below-other :
        (ps : Paths ipfs.Block K C) (k j : K) (level : Level K C) (x : Bool)
        (r : Option (Bool × Option C)) (u : S)
        → same_key j k ≡ false
        → contains_in ipfs codecs (look ps) t a (map_get j level.entries) u ≡ ok x
        → Below ps k j level x r u
    Below-other ps k j level x none u d h = rw d refl
    Below-other ps k j level x (some (result, o)) u d h = rw d (h, λ c. cc)

    pub map_get-with_link :
        (j k : K) (level : Level K C) (o : Option C)
        → map_get j (with_link k level o).entries
          ≡ (if same_key j k then o else map_get j level.entries)
    map_get-with_link j k level none = map_get-map_remove j k level.entries
    map_get-with_link j k level (some c) = map_get-map_insert j k c level.entries

    put_left-Ensures :
        (ps : Paths ipfs.Block K C) (k j : K) (codec : Linked ipfs.Block (Level K C))
        (level : Level K C) (x : Bool) (s u : S) (r : Option (Bool × Option C))
        → Grows ipfs s u
        → Below ps k j level x r u
        → Ensures (Removed ((k, j, codec) ∷ ps) x s) (put_left ipfs codecs k codec level r u)
    unfolding put_left contains_in
    put_left-Ensures ps k j codec level x s u none g b = (b, g)
    put_left-Ensures ps k j codec level x s u (some (result, o)) g b =
        let rest = with_link k level o in
        Ensures-bind
          (λ (o' : Option C) s'.
            (get_or ipfs codec (ok (level_of [])) o' s' ≡ ok rest) × Grows ipfs u s')
          (Removed ((k, j, codec) ∷ ps) x s) (put_rest ipfs codec rest rest.entries)
          (λ o'. pure (some (result, o'))) u (put_rest-Ensures ipfs codec level_of rest.entries u)
          (λ o' _ put. (
            (
              rw (put.0, map_get-with_link j k level o)
                  (contains_in-Grows ipfs codecs (look ps) t a
                    (if same_key j k then o else map_get j level.entries) _ u _ put.1 b.0),
              b.1,
            ),
            Grows-trans ipfs s u _ g put.1,
          ))

    pub none_below :
        (path : List (K × Linked ipfs.Block (Level K C))) (b x : Bool) (s : S)
        → contains_in ipfs codecs path t a none s ≡ ok x
        → (not b && x) ≡ x
    none_below path b x s h =
        let e : x ≡ false = returned_unique _ x false h (contains_in-none path t a s) in
        rw e (and_false (not b))

    pub at_key :
        (ps : Paths ipfs.Block K C) (k j : K) (level : Level K C) (x : Bool) (s : S)
        → same_key j k ≡ true
        → contains_in ipfs codecs (look ps) t a (map_get j level.entries) s ≡ ok x
        → contains_in ipfs codecs (look ps) t a (map_get k level.entries) s ≡ ok x
    at_key ps k j level x s q rest =
        subst (λ i. contains_in ipfs codecs (look ps) t a (map_get i level.entries) s ≡ ok x)
          (eq_of_same_key j k q) rest

    -- One level down, where the removal below it is known for a key that is the same.
    pub Below-level :
        (ps : Paths ipfs.Block K C) (k j : K) (level : Level K C) (x : Bool) (s : S)
        → contains_in ipfs codecs (look ps) t a (map_get j level.entries) s ≡ ok x
        → (same_key j k ≡ true
            → Ensures
                (Removed ps x s)
                (remove_in ipfs codecs (into ps) second rem (map_get k level.entries) s))
        → Ensures
            (λ r u. Below ps k j level x r u × Grows ipfs s u)
            (remove_in ipfs codecs (into ps) second rem (map_get k level.entries) s)
    Below-level ps k j level x s rest ih = elim (Bool-cases (same_key j k)) [
      | inl q ↦
          Post-imp (Removed ps x s) (λ r u. Below ps k j level x r u × Grows ipfs s u) _ _
            (λ r _ p. (Below-same ps k j level x r _ q p.0, p.1)) (ih q)
      | inr d ↦
          Post-imp (λ (r : Option (Bool × Option C)) u. Grows ipfs s u)
            (λ r u. Below ps k j level x r u × Grows ipfs s u) _ _
            (λ r _ g. (
              Below-other ps k j level x r _ d (
                  contains_in-Grows ipfs codecs (look ps) t a (map_get j level.entries) x s _ g
                    rest),
              g,
            ))
            (remove_in-Growing ipfs codecs (into ps) second rem (map_get k level.entries) s)
    ]

    pub remove_in-Ensures :
        (ps : Paths ipfs.Block K C) (x : Bool) (link : Option C) (s : S)
        → contains_in ipfs codecs (look ps) t a link s ≡ ok x
        → Ensures (Removed ps x s) (remove_in ipfs codecs (into ps) second rem link s)
    unfolding remove_in contains_in
    remove_in-Ensures ps x none s h = (none_below (look ps) (same_at ps) x s h, Grows-refl ipfs s)
    remove_in-Ensures [] x (some c) s h =
        let (seconds, load, rest) = and_then-returned (dag_get ipfs codecs.seconds c s) _ x h in
        let ex : in_set a (map_get t seconds.second) ≡ x = cc in
        rw load (
          subst
            (λ y.
              Ensures (Removed [] y s) (
                remove_from_second ipfs codecs second rem seconds (map_get second seconds.second)
                  s))
            ex (remove_from_second-Ensures seconds (map_get second seconds.second) s refl))
    remove_in-Ensures ((k, j, codec) ∷ ps) x (some c) s h =
        let (level, load, rest) = and_then-returned (dag_get ipfs codec c s) _ x h in
        rw load (
          Ensures-bind (λ r u. Below ps k j level x r u × Grows ipfs s u)
            (Removed ((k, j, codec) ∷ ps) x s)
            (remove_in ipfs codecs (into ps) second rem (map_get k level.entries))
            (put_left ipfs codecs k codec level) s
            (Below-level ps k j level x s rest (λ q.
              remove_in-Ensures ps x (map_get k level.entries) s (at_key ps k j level x s q rest)))
            (λ r _ b. put_left-Ensures ps k j codec level x s _ r b.1 b.0))
