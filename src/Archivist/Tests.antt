-- ===== src/Archivist/Tests.antt =====
-- The archive of a minute and two seconds, on an IPFS node in memory.
use rust_defluencer.Base.{some, ℕ, ◌≡◌, refl, [], ◌∷◌, Result, ok, err, ipfs_api, length, replicate}
use rust_defluencer.Ipfs.{dag_put}
use rust_defluencer.Ipfs.Memory.{memory}
use rust_defluencer.LinkedData.Video.{Second, Minute, Hour, Day, Timecode}
use rust_defluencer.Archivist.{
  drain, flush_second, flush_minute, flush_hour, flush, put_timecode, finalize, Archivist, Codecs,
  new, collect_second, collect_minute, collect_hour, after_minute, after_second, archive_buffered,
  archive_video_segment, archive_all,
}
use rust_defluencer.Archivist.Videos.{archived, archived_hours}
use rust_defluencer.Archivist.Contents.{archived-archive_all}
use rust_defluencer.Archivist.Flush.{Flushed, flush-Flushed}
use rust_defluencer.Archivist.Counts.{Counts, minutes_of, seconds_of, archive_all-Counts}

data Block : Type 0 where
  of_second : Second ℕ → Block
  of_minute : Minute ℕ → Block
  of_hour : Hour ℕ → Block
  of_day : Day ℕ → Block
  of_timecode : Timecode ℕ → Block

abbrev to_second : Block → Result (Second ℕ)
to_second (of_second x) = ok x
to_second _ = err ipfs_api

abbrev to_minute : Block → Result (Minute ℕ)
to_minute (of_minute x) = ok x
to_minute _ = err ipfs_api

abbrev to_hour : Block → Result (Hour ℕ)
to_hour (of_hour x) = ok x
to_hour _ = err ipfs_api

abbrev to_day : Block → Result (Day ℕ)
to_day (of_day x) = ok x
to_day _ = err ipfs_api

abbrev to_timecode : Block → Result (Timecode ℕ)
to_timecode (of_timecode x) = ok x
to_timecode _ = err ipfs_api

abbrev codecs : Codecs Block ℕ
codecs = record {
  second = record { encode = of_second; decode = to_second; decode-encode = λ t. refl };
  minute = record { encode = of_minute; decode = to_minute; decode-encode = λ t. refl };
  hour = record { encode = of_hour; decode = to_hour; decode-encode = λ t. refl };
  day = record { encode = of_day; decode = to_day; decode-encode = λ t. refl };
  timecode = record { encode = of_timecode; decode = to_timecode; decode-encode = λ t. refl };
}

after_minute_and_two : Archivist ℕ
after_minute_and_two = (archive_all memory codecs (replicate 62 7) new []).0

-- One minute, one second, and the last segment in the buffer.
archived_minutes : minutes_of after_minute_and_two ≡ 1
unfolding after_minute_and_two archive_all archive_video_segment archive_buffered after_second
    after_minute collect_second collect_minute collect_hour new dag_put
archived_minutes = refl

archived_seconds : seconds_of after_minute_and_two ≡ 1
unfolding after_minute_and_two archive_all archive_video_segment archive_buffered after_second
    after_minute collect_second collect_minute collect_hour new dag_put
archived_seconds = refl

archive_all-Counts_example : Counts 62 (archive_all memory codecs (replicate 62 7) new []).0
archive_all-Counts_example =
    archive_all-Counts memory codecs (λ b s. (length s, refl)) (replicate 62 7) []

flush-Flushed_example :
    Flushed 62
      (flush memory codecs
        (archive_all memory codecs (replicate 62 7) new []).0
        (archive_all memory codecs (replicate 62 7) new []).1).0
flush-Flushed_example = flush-Flushed memory codecs (λ b s. (length s, refl)) (replicate 62 7) []

archived-archive_all_example :
    (archived memory codecs
        (archive_all memory codecs (7 ∷ 8 ∷ 9 ∷ []) new []).0
        (archive_all memory codecs (7 ∷ 8 ∷ 9 ∷ []) new []).1
      ≡ ok (7 ∷ 8 ∷ 9 ∷ []))
    × (archived_hours memory codecs (
          flush memory codecs
            (archive_all memory codecs (7 ∷ 8 ∷ 9 ∷ []) new []).0
            (archive_all memory codecs (7 ∷ 8 ∷ 9 ∷ []) new []).1)
        ≡ ok (7 ∷ 8 ∷ 9 ∷ []))
archived-archive_all_example =
    archived-archive_all memory codecs (λ b s. (length s, refl)) (7 ∷ 8 ∷ 9 ∷ []) []

-- The day and the timecode are stored, and the timecode is pinned.
finalize_runs :
    (finalize memory codecs
      (λ c s. (ok tt, s))
      (archive_all memory codecs (replicate 2 7) new []).0
      (archive_all memory codecs (replicate 2 7) new []).1).0
    ≡ ok (some 5)
unfolding finalize put_timecode flush flush_second flush_minute flush_hour drain archive_all
    archive_video_segment archive_buffered after_second after_minute collect_second collect_minute
    collect_hour new dag_put
finalize_runs = refl
