-- ===== src/DateTime/Tests.antt =====
-- An insertion in an empty index, run on an IPFS node in memory.
use rust_defluencer.Base.{
  ℕ, ◌≡◌, refl, true, false, none, some, List, [], Result, ok, err, ipfs_api,
}
use rust_defluencer.Base.Key.{nat_key}
use rust_defluencer.Base.Sets.{set_contains, set_remove, map_get, map_insert, map_remove}
use rust_defluencer.Ipfs.{Linked, dag_put, dag_get}
use rust_defluencer.Ipfs.Memory.{memory}
use rust_defluencer.LinkedData.DateTime.{Level, Seconds}
use rust_defluencer.DateTime.{
  DateTime, Codecs, add_to_second, put_level, insert_in, insert, put_rest, remove_from_second,
  put_left, remove_in, put_year, remove,
}
use rust_defluencer.DateTime.Contents.{contains_in, contains}
use rust_defluencer.DateTime.Insert.{contains-insert}
use rust_defluencer.DateTime.Removal.{contains-remove}

-- The levels by their number.
data Block : Type 0 where
  of_level : ℕ → Level ℕ ℕ → Block
  of_seconds : Seconds ℕ ℕ → Block

abbrev to_level : Block → Result (Level ℕ ℕ)
to_level (of_level n l) = ok l
to_level (of_seconds s) = err ipfs_api

abbrev to_seconds : Block → Result (Seconds ℕ ℕ)
to_seconds (of_level n l) = err ipfs_api
to_seconds (of_seconds s) = ok s

abbrev level_codec : ℕ → Linked Block (Level ℕ ℕ)
level_codec n = record { encode = of_level n; decode = to_level; decode-encode = λ t. refl }

abbrev codecs : Codecs Block ℕ ℕ
codecs = record {
  yearly = level_codec 0;
  monthly = level_codec 1;
  daily = level_codec 2;
  hourly = level_codec 3;
  minutes = level_codec 4;
  seconds = record { encode = of_seconds; decode = to_seconds; decode-encode = λ t. refl };
}

abbrev noon : DateTime ℕ
noon = record { year = 2022; month = 11; day = 5; hour = 12; minute = 0; second = 0 }

abbrev inserted : List Block
inserted = (insert memory codecs noon none 7 []).1

nothing_before : contains memory codecs noon 7 none [] ≡ ok false
unfolding contains contains_in map_get
nothing_before = refl

insert_runs : insert memory codecs noon none 7 [] ≡ (ok (true, some 5), inserted)
unfolding insert insert_in add_to_second put_level map_get map_insert dag_put
insert_runs = refl

abbrev removed : List Block
removed = (remove memory codecs noon (some 5) 7 inserted).1

-- Removing the only value leaves an empty yearly level.
remove_runs : remove memory codecs noon (some 5) 7 inserted ≡ (ok (true, some 6), removed)
unfolding insert insert_in add_to_second put_level map_get map_insert map_remove dag_put dag_get
    remove remove_in remove_from_second put_left put_rest put_year set_remove set_contains
remove_runs = refl

contains-insert_example : contains memory codecs noon 7 (some 5) inserted ≡ ok true
contains-insert_example =
    contains-insert memory codecs noon noon none 7 7 false [] true (some 5) inserted nothing_before
      insert_runs

holds_after : contains memory codecs noon 7 (some 5) inserted ≡ ok true
holds_after =
    contains-insert memory codecs noon noon none 7 7 false [] true (some 5) inserted nothing_before
      insert_runs

contains-remove_example :
    (contains memory codecs noon 7 (some 6) removed ≡ ok false) × (true ≡ true)
contains-remove_example =
    contains-remove memory codecs noon noon (some 5) 7 7 true true inserted true (some 6) removed
      holds_after holds_after remove_runs
