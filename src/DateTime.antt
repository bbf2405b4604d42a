-- ===== src/DateTime.antt =====
-- defluencer/src/indexing/datetime.rs: `insert` and `remove` of the chronological index, a trie over
-- the blocks of an IPFS node with a level for each part of a date and time. The source writes the
-- levels out one after the other: it reads them downwards and stores them upwards. The model goes
-- down the list of them, with the codec of each level, and makes the same calls in the same order.
pub mod Contents
pub mod Paths
pub mod Growth
pub mod Insert
pub mod Remove
pub mod Removal
mod Tests
use rust_defluencer.Base.{
  ◌≡◌, Bool, true, false, Option, none, some, List, [], ◌∷◌, if◌then◌else◌, and_then, Result, ok,
  Action, pure, lift, read, ◌>>=◌,
}
use rust_defluencer.Base.Key.{Key, same_key}
use rust_defluencer.Base.Sets.{
  set_contains, set_insert, set_remove, map_get, map_insert, map_remove,
}
use rust_defluencer.Ipfs.{Ipfs, Linked, get_or, dag_put, dag_get}
use rust_defluencer.LinkedData.DateTime.{Level, Seconds}

-- What is taken from the `DateTime` of the crate chrono.
pub record DateTime (K : Type 0) : Type 0 where
  pub year : K
  pub month : K
  pub day : K
  pub hour : K
  pub minute : K
  pub second : K

pub record Codecs (Block K C : Type 0) : Type 0 where
  pub yearly : Linked Block (Level K C)
  pub monthly : Linked Block (Level K C)
  pub daily : Linked Block (Level K C)
  pub hourly : Linked Block (Level K C)
  pub minutes : Linked Block (Level K C)
  pub seconds : Linked Block (Seconds K C)

module _ {Block K C : Type 0} (codecs : Codecs Block K C) where
  -- The keys below the year, each with the codec of the level that it is a key of.
  abbrev pub below_year : DateTime K → List (K × Linked Block (Level K C))
  below_year d =
      (d.month, codecs.monthly)
      ∷ (d.day, codecs.daily)
      ∷ (d.hour, codecs.hourly)
      ∷ (d.minute, codecs.minutes)
      ∷ []

  abbrev pub path_of : DateTime K → List (K × Linked Block (Level K C))
  path_of d = (d.year, codecs.yearly) ∷ below_year d

-- A level after `remove` below it: the entry is gone where nothing is left there.
abbrev pub with_link : {K C : Type 0} ⦃numbers : Key K⦄ → K → Level K C → Option C → Level K C
with_link key level none = record { entries = map_remove key level.entries }
with_link key level (some cid) = record { entries = map_insert key cid level.entries }

-- A level is stored where it is not empty.
unfoldable pub put_rest :
    {C S T V : Type 0} (ipfs : Ipfs C S) → Linked ipfs.Block T → T → List V → Action S (Option C)
put_rest ipfs codec t [] = pure none
put_rest ipfs codec t (v ∷ vs) = dag_put ipfs codec t >>= λ cid. pure (some cid)

abbrev pub with_set : {K C : Type 0} ⦃numbers : Key K⦄ → K → Seconds K C → List C → Seconds K C
with_set second seconds [] = record { second = map_remove second seconds.second }
with_set second seconds (c ∷ links) = record {
  second = map_insert second (c ∷ links) seconds.second;
}

module _ {K C S : Type 0} ⦃numbers : Key K⦄ ⦃links : Key C⦄ (ipfs : Ipfs C S)
    (codecs : Codecs ipfs.Block K C) where
  -- The end of `insert` at the level of the seconds: no link where the set had the value.
  unfoldable pub add_to_second : K → C → Seconds K C → Option (List C) → Action S (Option C)
  add_to_second second add_cid seconds none =
      dag_put ipfs codecs.seconds
        (record { second = map_insert second (add_cid ∷ []) seconds.second })
      >>= λ cid. pure (some cid)
  add_to_second second add_cid seconds (some links) =
      if set_contains add_cid links
      then pure none
      else (dag_put ipfs codecs.seconds
            (record { second = map_insert second (set_insert add_cid links) seconds.second })
          >>= λ cid. pure (some cid))

  -- The store of a level of `insert`, with the link to the level below it.
  unfoldable pub put_level :
      K → Linked ipfs.Block (Level K C) → Level K C → Option C → Action S (Option C)
  put_level key codec level none = pure none
  put_level key codec level (some cid) =
      dag_put ipfs codec (record { entries = map_insert key cid level.entries }) >>= λ cid'.
      pure (some cid')

  unfoldable pub insert_in :
      List (K × Linked ipfs.Block (Level K C)) → K → C → Option C → Action S (Option C)
  insert_in [] second add_cid link =
      read (get_or ipfs codecs.seconds (ok (record { second = [] })) link) >>= λ seconds.
      add_to_second second add_cid seconds (map_get second seconds.second)
  insert_in ((key, codec) ∷ path) second add_cid link =
      read (get_or ipfs codec (ok (record { entries = [] })) link) >>= λ level.
      insert_in path second add_cid (map_get key level.entries) >>= put_level key codec level

  abbrev inserted : Option C → Option C → Bool × Option C
  inserted index none = (false, index)
  inserted index (some cid) = (true, some cid)

  -- `insert`, with the new value of `index`.
  unfoldable pub insert : DateTime K → Option C → C → Action S (Bool × Option C)
  insert d index add_cid =
      insert_in (path_of codecs d) d.second add_cid index >>= λ r. pure (inserted index r)

  -- `remove` at the level of the seconds: nothing where it returns `false` at once, and else whether
  -- the value was there, with the link that is left.
  unfoldable pub remove_from_second :
      K → C → Seconds K C → Option (List C) → Action S (Option (Bool × Option C))
  remove_from_second second remove_cid seconds none = pure none
  remove_from_second second remove_cid seconds (some links) =
      let rest = with_set second seconds (set_remove remove_cid links) in
      put_rest ipfs codecs.seconds rest rest.second >>= λ o.
      pure (some (set_contains remove_cid links, o))

  unfoldable pub put_left :
      K
      → Linked ipfs.Block (Level K C)
      → Level K C
      → Option (Bool × Option C)
      → Action S (Option (Bool × Option C))
  put_left key codec level none = pure none
  put_left key codec level (some (result, link)) =
      let rest = with_link key level link in
      put_rest ipfs codec rest rest.entries >>= λ o. pure (some (result, o))

  unfoldable pub remove_in :
      List (K × Linked ipfs.Block (Level K C))
      → K
      → C
      → Option C
      → Action S (Option (Bool × Option C))
  remove_in path second remove_cid none = pure none
  remove_in [] second remove_cid (some link) =
      read (dag_get ipfs codecs.seconds link) >>= λ seconds.
      remove_from_second second remove_cid seconds (map_get second seconds.second)
  remove_in ((key, codec) ∷ path) second remove_cid (some link) =
      read (dag_get ipfs codec link) >>= λ level.
      remove_in path second remove_cid (map_get key level.entries) >>= put_left key codec level

  -- The yearly level is stored also where it is empty.
  unfoldable pub put_year :
      K → Level K C → Option C → Option (Bool × Option C) → Action S (Bool × Option C)
  put_year year yearly index none = pure (false, index)
  put_year year yearly index (some (result, link)) =
      dag_put ipfs codecs.yearly (with_link year yearly link) >>= λ cid. pure (result, some cid)

  -- `remove`, with the new value of `index`.
  unfoldable pub remove : DateTime K → Option C → C → Action S (Bool × Option C)
  remove d none remove_cid = pure (false, none)
  remove d (some index) remove_cid = read (dag_get ipfs codecs.yearly index) >>= λ yearly.
      remove_in (below_year codecs d) d.second remove_cid (map_get d.year yearly.entries)
      >>= put_year d.year yearly (some index)
