-- ===== src/DateTime/Growth.antt =====
-- `insert` and `remove` of the chronological index lose no block.
use rust_defluencer.Base.{Bool, Option, none, some, List, [], ◌∷◌, pure, read, ◌>>=◌}
use rust_defluencer.Base.Key.{Key}
use rust_defluencer.Base.Sets.{set_contains, set_remove, map_get}
use rust_defluencer.Ipfs.{Ipfs, Linked, Grows-refl, get_or, dag_put, dag_get}
use rust_defluencer.Ipfs.Growing.{Growing, Growing-bind, if-Growing, Growing-read, Growing-dag_put}
use rust_defluencer.LinkedData.DateTime.{Level, Seconds}
use rust_defluencer.DateTime.{
  Codecs, with_link, with_set, put_rest, add_to_second, put_level, insert_in, remove_from_second,
  put_left, remove_in,
}

module _ {C S T : Type 0} (ipfs : Ipfs C S) (codec : Linked ipfs.Block T) where
  put_some-Growing : (t : T) → Growing ipfs (dag_put ipfs codec t >>= λ cid. pure (some cid))
  put_some-Growing t =
      Growing-bind ipfs (dag_put ipfs codec t) _ (Growing-dag_put ipfs codec t)
        (λ c s. Grows-refl ipfs s)

  put_rest-Growing : {V : Type 0} (t : T) (vs : List V) → Growing ipfs (put_rest ipfs codec t vs)
  unfolding put_rest
  put_rest-Growing t [] = λ s. Grows-refl ipfs s
  put_rest-Growing t (v ∷ vs) = put_some-Growing t

module _ {K C S : Type 0} ⦃numbers : Key K⦄ ⦃links : Key C⦄ (ipfs : Ipfs C S)
    (codecs : Codecs ipfs.Block K C) where
  add_to_second-Growing :
      (second : K) (add : C) (seconds : Seconds K C) (o : Option (List C))
      → Growing ipfs (add_to_second ipfs codecs second add seconds o)
  unfolding add_to_second
  add_to_second-Growing second add seconds none = put_some-Growing ipfs codecs.seconds _
  add_to_second-Growing second add seconds (some set) =
      if-Growing ipfs (set_contains add set) _ _ (λ s. Grows-refl ipfs s)
        (put_some-Growing ipfs codecs.seconds _)

  put_level-Growing :
      (k : K) (codec : Linked ipfs.Block (Level K C)) (level : Level K C) (o : Option C)
      → Growing ipfs (put_level ipfs codecs k codec level o)
  unfolding put_level
  put_level-Growing k codec level none = λ s. Grows-refl ipfs s
  put_level-Growing k codec level (some c) = put_some-Growing ipfs codec _

  pub insert_in-Growing :
      (path : List (K × Linked ipfs.Block (Level K C))) (second : K) (add : C) (link : Option C)
      → Growing ipfs (insert_in ipfs codecs path second add link)
  unfolding insert_in
  insert_in-Growing [] second add link =
      Growing-bind ipfs (read (get_or ipfs codecs.seconds _ link)) _ (Growing-read ipfs _)
        (λ l. add_to_second-Growing second add l (map_get second l.second))
  insert_in-Growing ((k, codec) ∷ path) second add link =
      Growing-bind ipfs (read (get_or ipfs codec _ link)) _ (Growing-read ipfs _) (λ l.
        Growing-bind ipfs (insert_in ipfs codecs path second add (map_get k l.entries)) _
          (insert_in-Growing path second add (map_get k l.entries)) (put_level-Growing k codec l))

  remove_from_second-Growing :
      (second : K) (rem : C) (seconds : Seconds K C) (o : Option (List C))
      → Growing ipfs (remove_from_second ipfs codecs second rem seconds o)
  unfolding remove_from_second
  remove_from_second-Growing second rem seconds none = λ s. Grows-refl ipfs s
  remove_from_second-Growing second rem seconds (some set) =
      let rest = with_set second seconds (set_remove rem set) in
      Growing-bind ipfs (put_rest ipfs codecs.seconds rest rest.second) _
        (put_rest-Growing ipfs codecs.seconds rest rest.second) (λ o s. Grows-refl ipfs s)

  put_left-Growing :
      (k : K) (codec : Linked ipfs.Block (Level K C)) (level : Level K C)
      (r : Option (Bool × Option C))
      → Growing ipfs (put_left ipfs codecs k codec level r)
  unfolding put_left
  put_left-Growing k codec level none = λ s. Grows-refl ipfs s
  put_left-Growing k codec level (some (result, o)) =
      let rest = with_link k level o in
      Growing-bind ipfs (put_rest ipfs codec rest rest.entries) _
        (put_rest-Growing ipfs codec rest rest.entries) (λ o s. Grows-refl ipfs s)

  pub remove_in-Growing :
      (path : List (K × Linked ipfs.Block (Level K C))) (second : K) (rem : C) (link : Option C)
      → Growing ipfs (remove_in ipfs codecs path second rem link)
  unfolding remove_in
  remove_in-Growing path second rem none = λ s. Grows-refl ipfs s
  remove_in-Growing [] second rem (some c) =
      Growing-bind ipfs (read (dag_get ipfs codecs.seconds c)) _ (Growing-read ipfs _)
        (λ l. remove_from_second-Growing second rem l (map_get second l.second))
  remove_in-Growing ((k, codec) ∷ path) second rem (some c) =
      Growing-bind ipfs (read (dag_get ipfs codec c)) _ (Growing-read ipfs _) (λ l.
        Growing-bind ipfs (remove_in ipfs codecs path second rem (map_get k l.entries)) _
          (remove_in-Growing path second rem (map_get k l.entries)) (put_left-Growing k codec l))
