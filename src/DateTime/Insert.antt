-- ===== src/DateTime/Insert.antt =====
-- `insert` of the chronological index: afterwards the index holds the value, and what it held.
use rust_defluencer.Base.{
  ◌≡◌, refl, sym, ◌∙◌, ap, subst, inl, inr, Bool, true, false, ◌&&◌, ◌||◌, Option, none, some, List,
  [], ◌∷◌, if◌then◌else◌, Bool-cases, and_then-returned, ok, pure, ◌>>=◌, Ensures, Ensures-bind,
  Ensures-returned, Post-imp,
}
use rust_defluencer.Base.Key.{Key, same_key, eq_of_same_key}
use rust_defluencer.Base.Sets.{
  set_contains, set_insert, map_get, map_insert, set_contains-set_insert, map_get-map_insert,
  or_present,
}
use rust_defluencer.Ipfs.{
  Ipfs, Linked, Grows, Grows-refl, Grows-trans, get_or, dag_put, dag_get, dag_put-Ensures,
}
use rust_defluencer.LinkedData.DateTime.{Level, Seconds}
use rust_defluencer.DateTime.{
  DateTime, Codecs, path_of, add_to_second, put_level, insert_in, insert, inserted,
}
use rust_defluencer.DateTime.Paths.{Paths, into, look, same_path, both, same_time, regroup}
use rust_defluencer.DateTime.Growth.{insert_in-Growing}
use rust_defluencer.DateTime.Contents.{in_set, contains_in, contains, contains_in-Grows}

module _ {K C S : Type 0} ⦃numbers : Key K⦄ ⦃links : Key C⦄ (ipfs : Ipfs C S)
    (codecs : Codecs ipfs.Block K C) where
  -- What is read at a link that an insertion returned, where it returned one.
  abbrev Reads : Paths ipfs.Block K C → K → C → Bool → Bool → Option C → S → Type 0
  Reads ps t a x now none s' = now ≡ x
  Reads ps t a x now (some c) s' = contains_in ipfs codecs (look ps) t a (some c) s' ≡ ok now

  module _ (second t : K) (add a : C) where
    in_set_insert :
        (m : List (K × List C)) (o : Option (List C)) (new : List C)
        → map_get second m ≡ o
        → set_contains a new ≡ (same_key a add || in_set a o)
        → in_set a (map_get t (map_insert second new m))
          ≡ (same_key t second && same_key a add || in_set a (map_get t m))
    in_set_insert m o new e hn = elim (Bool-cases (same_key t second)) [
      | inl q ↦
          rw (map_get-map_insert t second new m, q)
            (hn
              ∙ ap (λ u. same_key a add || in_set a u)
                  (sym e ∙ ap (λ u. map_get u m) (sym (eq_of_same_key t second q))))
      | inr q ↦ rw (map_get-map_insert t second new m, q) refl
    ]

    already_in :
        (m : List (K × List C)) (set : List C)
        → map_get second m ≡ some set
        → set_contains add set ≡ true
        → (same_key t second && same_key a add || in_set a (map_get t m)) ≡ in_set a (map_get t m)
    already_in m set e there = elim (Bool-cases (same_key t second)) [
      | inl q ↦ rw (q, eq_of_same_key t second q, e) (or_present a add set there)
      | inr q ↦ rw q refl
    ]

    abbrev now_in : Paths ipfs.Block K C → Bool → Bool
    now_in ps x = same_path ps (same_key t second && same_key a add) || x

    abbrev Inserted : Paths ipfs.Block K C → Bool → S → Option C → S → Type 0
    Inserted ps x s answer s' = Reads ps t a x (now_in ps x) answer s' × Grows ipfs s s'

    store_second :
        (seconds : Seconds K C) (o : Option (List C)) (new : List C) (s : S)
        → map_get second seconds.second ≡ o
        → set_contains a new ≡ (same_key a add || in_set a o)
        → Ensures (Inserted [] (in_set a (map_get t seconds.second)) s) (
            (dag_put ipfs codecs.seconds (record { second = map_insert second new seconds.second })
                >>= λ cid. pure (some cid))
              s)
    unfolding contains_in
    store_second seconds o new s e hn =
        let new_seconds : Seconds K C = record { second = map_insert second new seconds.second } in
        Ensures-bind
          (λ (c : C) (u : S). (dag_get ipfs codecs.seconds c u ≡ ok new_seconds) × Grows ipfs s u)
          (Inserted [] (in_set a (map_get t seconds.second)) s)
          (dag_put ipfs codecs.seconds new_seconds) (λ cid. pure (some cid)) s
          (dag_put-Ensures ipfs codecs.seconds new_seconds s)
          (λ c _ put. (rw put.0 (ap ok (in_set_insert seconds.second o new e hn)), put.1))

    add_to_second-Ensures :
        (seconds : Seconds K C) (o : Option (List C)) (s : S)
        → map_get second seconds.second ≡ o
        → Ensures
            (Inserted [] (in_set a (map_get t seconds.second)) s)
            (add_to_second ipfs codecs second add seconds o s)
    unfolding add_to_second set_insert set_contains
    add_to_second-Ensures seconds none s e =
        store_second seconds none (add ∷ []) s e (set_contains-set_insert a add [])
    add_to_second-Ensures seconds (some set) s e = elim (Bool-cases (set_contains add set)) [
      | inl there ↦ rw there (already_in seconds.second set e there, Grows-refl ipfs s)
      | inr new ↦ rw new (
          store_second seconds (some set) (set_insert add set) s e
            (set_contains-set_insert a add set))
    ]

    -- What the answer from the level below must say for the level above.
    abbrev Below : Paths ipfs.Block K C → K → K → Level K C → Bool → Option C → S → Type 0
    Below ps k j level x none u =
        (same_key j k && same_path ps (same_key t second && same_key a add) || x) ≡ x
    Below ps k j level x (some c) u =
        contains_in ipfs codecs (look ps) t a
          (if same_key j k then some c else map_get j level.entries) u
        ≡ ok (same_key j k && same_path ps (same_key t second && same_key a add) || x)

    Below-same :
        (ps : Paths ipfs.Block K C) (k j : K) (level : Level K C) (x : Bool) (r : Option C) (u : S)
        → same_key j k ≡ true
        → Reads ps t a x (now_in ps x) r u
        → Below ps k j level x r u
    Below-same ps k j level x none u q h = rw q h
    Below-same ps k j level x (some c) u q h = rw q h

    Below-other :
        (ps : Paths ipfs.Block K C) (k j : K) (level : Level K C) (x : Bool) (r : Option C) (u : S)
        → same_key j k ≡ false
        → contains_in ipfs codecs (look ps) t a (map_get j level.entries) u ≡ ok x
        → Below ps k j level x r u
    Below-other ps k j level x none u d h = rw d refl
    Below-other ps k j level x (some c) u d h = rw d h

    put_level-Ensures :
        (ps : Paths ipfs.Block K C) (k j : K) (codec : Linked ipfs.Block (Level K C))
        (level : Level K C) (x : Bool) (s u : S) (r : Option C)
        → Grows ipfs s u
        → Below ps k j level x r u
        → Ensures (Inserted ((k, j, codec) ∷ ps) x s) (put_level ipfs codecs k codec level r u)
    unfolding put_level contains_in
    put_level-Ensures ps k j codec level x s u none g b = (b, g)
    put_level-Ensures ps k j codec level x s u (some c) g b =
        let new_level : Level K C = record { entries = map_insert k c level.entries } in
        Ensures-bind (λ (c' : C) (v : S). (dag_get ipfs codec c' v ≡ ok new_level) × Grows ipfs u v)
          (Inserted ((k, j, codec) ∷ ps) x s) (dag_put ipfs codec new_level)
          (λ cid. pure (some cid)) u (dag_put-Ensures ipfs codec new_level u)
          (λ c' _ put. (
            rw (put.0, map_get-map_insert j k c level.entries)
                (contains_in-Grows ipfs codecs (look ps) t a
                  (if same_key j k then some c else map_get j level.entries) _ u _ put.1 b),
            Grows-trans ipfs s u _ g put.1,
          ))

    insert_in-Ensures :
        (ps : Paths ipfs.Block K C) (x : Bool) (link : Option C) (s : S)
        → contains_in ipfs codecs (look ps) t a link s ≡ ok x
        → Ensures (Inserted ps x s) (insert_in ipfs codecs (into ps) second add link s)
    unfolding insert_in contains_in
    insert_in-Ensures [] x link s h =
        let (seconds, load, rest) =
          and_then-returned (get_or ipfs codecs.seconds (ok (record { second = [] })) link s) _ x
            h in
        let ex : in_set a (map_get t seconds.second) ≡ x = cc in
        rw load (
          subst
            (λ y.
              Ensures (Inserted [] y s)
                (add_to_second ipfs codecs second add seconds (map_get second seconds.second) s))
            ex (add_to_second-Ensures seconds (map_get second seconds.second) s refl))
    insert_in-Ensures ((k, j, codec) ∷ ps) x link s h =
        let (level, load, rest) =
          and_then-returned (get_or ipfs codec (ok (record { entries = [] })) link s) _ x h in
        rw load (
          Ensures-bind (λ r u. Below ps k j level x r u × Grows ipfs s u)
            (Inserted ((k, j, codec) ∷ ps) x s)
            (insert_in ipfs codecs (into ps) second add (map_get k level.entries))
            (put_level ipfs codecs k codec level) s
            (elim (Bool-cases (same_key j k)) [
              | inl q ↦
                  let rest' =
                    subst
                      (λ i.
                        contains_in ipfs codecs (look ps) t a (map_get i level.entries) s ≡ ok x)
                      (eq_of_same_key j k q) rest in
                  Post-imp (Inserted ps x s) (λ r u. Below ps k j level x r u × Grows ipfs s u) _ _
                    (λ r _ p. (Below-same ps k j level x r _ q p.0, p.1))
                    (insert_in-Ensures ps x (map_get k level.entries) s rest')
              | inr d ↦
                  Post-imp (λ (r : Option C) u. Grows ipfs s u)
                    (λ r u. Below ps k j level x r u × Grows ipfs s u) _ _
                    (λ r _ g. (
                      Below-other ps k j level x r _ d (
                          contains_in-Grows ipfs codecs (look ps) t a (map_get j level.entries) x s
                            _ g rest),
                      g,
                    ))
                    (insert_in-Growing ipfs codecs (into ps) second add (map_get k level.entries) s)
            ])
            (λ r _ b. put_level-Ensures ps k j codec level x s _ r b.1 b.0))

  module _ (d e : DateTime K) (index : Option C) (add a : C) (x : Bool) where
    abbrev pub After : Bool × Option C → S → Type 0
    After r s' =
        contains_in ipfs codecs (path_of codecs e) e.second a r.1 s'
        ≡ ok (same_time e d && same_key a add || x)

    abbrev grouped :
        (now_in d.second e.second add a (both codecs d e) x)
        ≡ (same_time e d && same_key a add || x)
    grouped =
        regroup (same_key e.year d.year) (same_key e.month d.month) (same_key e.day d.day)
          (same_key e.hour d.hour) (same_key e.minute d.minute) (same_key e.second d.second)
          (same_key a add) x

    inserted_reads :
        (s s' : S) (r : Option C)
        → contains_in ipfs codecs (path_of codecs e) e.second a index s ≡ ok x
        → Inserted d.second e.second add a (both codecs d e) x s r s'
        → After (inserted ipfs codecs index r) s'
    inserted_reads s s' none h p =
        contains_in-Grows ipfs codecs (path_of codecs e) e.second a index x s s' p.1 h
        ∙ ap ok (sym p.0 ∙ grouped)
    inserted_reads s s' (some c) h p = p.0 ∙ ap ok grouped

    pub insert-Ensures :
        (s : S)
        → contains_in ipfs codecs (path_of codecs e) e.second a index s ≡ ok x
        → Ensures After (insert ipfs codecs d index add s)
    unfolding insert
    insert-Ensures s h =
        Ensures-bind (Inserted d.second e.second add a (both codecs d e) x s) After
          (insert_in ipfs codecs (path_of codecs d) d.second add index)
          (λ r. pure (inserted ipfs codecs index r)) s
          (insert_in-Ensures d.second e.second add a (both codecs d e) x index s h)
          (λ r _ p. inserted_reads s _ r h p)

  -- Where the old index can be read and `insert` returns, the index that it gives back holds the value at its time, and of any value at any
  -- time it says otherwise what the old one said.
  pub contains-insert :
      (d e : DateTime K) (index : Option C) (add a : C) (x : Bool) (s : S) (is_new : Bool)
      (index' : Option C) (s' : S)
      → contains ipfs codecs e a index s ≡ ok x
      → insert ipfs codecs d index add s ≡ (ok (is_new, index'), s')
      → contains ipfs codecs e a index' s' ≡ ok (same_time e d && same_key a add || x)
  unfolding contains
  contains-insert d e index add a x s is_new index' s' h run =
      Ensures-returned (After d e index add a x) (insert ipfs codecs d index add s) (is_new, index')
        s' (insert-Ensures d e index add a x s h) run
