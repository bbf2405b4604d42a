-- ===== src/Archivist.antt =====
-- cli/src/actors/archivist.rs: the actor that files the segments of a live stream. It buffers one
-- second, collects the links to sixty seconds in a minute and to sixty minutes in an hour, and
-- stores what is left in the end. An operation takes the actor and the state of the IPFS node and
-- gives both back; where a store fails, the source prints the error and returns.
pub mod Counts
pub mod Flush
pub mod Videos
pub mod Contents
mod Tests
use rust_defluencer.Base.{
  ℕ, Bool, true, false, Option, none, some, List, [], ◌∷◌, ◌++◌, if◌then◌else◌, ltb, ◌==◌, ◌>>=◌,
  pure, length, Result, ok, err, panic, Action,
}
use rust_defluencer.Ipfs.{Ipfs, Linked, dag_put}
use rust_defluencer.LinkedData.Video.{Second, Minute, Hour, Day, Timecode}

pub record Archivist (C : Type 0) : Type 0 where
  pub video_chat_buffer : Option (Second C)
  pub minute_node : Minute C
  pub hour_node : Hour C
  pub day_node : Day C

-- The codecs of the blocks.
pub record Codecs (Block C : Type 0) : Type 0 where
  pub second : Linked Block (Second C)
  pub minute : Linked Block (Minute C)
  pub hour : Linked Block (Hour C)
  pub day : Linked Block (Day C)
  pub timecode : Linked Block (Timecode C)

-- `Archivist::new`
unfoldable pub new : {C : Type 0} → Archivist C
new = record {
  video_chat_buffer = none;
  minute_node = record { links_to_seconds = [] };
  hour_node = record { links_to_minutes = [] };
  day_node = record { links_to_hours = [] };
}

module _ {C S : Type 0} (ipfs : Ipfs C S) (codecs : Codecs ipfs.Block C) where
  -- What is done with the link where the store succeeded.
  abbrev pub stored : Archivist C → (C → Archivist C) → Result C × S → Archivist C × S
  stored a f (ok cid, s) = (f cid, s)
  stored a f (err e, s) = (a, s)
  stored a f (panic, s) = (a, s)

  -- `collect_second`
  unfoldable pub collect_second : Second C → Archivist C → S → Archivist C × S
  collect_second node a s =
      stored a
        (λ cid. record a {
          minute_node = record { links_to_seconds = a.minute_node.links_to_seconds ++ cid ∷ [] };
        })
        (dag_put ipfs codecs.second node s)

  -- `collect_minute`
  unfoldable pub collect_minute : Archivist C → S → Archivist C × S
  collect_minute a s =
      stored a
        (λ cid. record a {
          minute_node = record { links_to_seconds = [] };
          hour_node = record { links_to_minutes = a.hour_node.links_to_minutes ++ cid ∷ [] };
        })
        (dag_put ipfs codecs.minute a.minute_node s)

  -- `collect_hour`
  unfoldable pub collect_hour : Archivist C → S → Archivist C × S
  collect_hour a s =
      stored a
        (λ cid. record a {
          hour_node = record { links_to_minutes = [] };
          day_node = record { links_to_hours = a.day_node.links_to_hours ++ cid ∷ [] };
        })
        (dag_put ipfs codecs.hour a.hour_node s)

  -- `archive_video_segment` after `collect_minute`, after `collect_second`, and after `take`.
  unfoldable pub after_minute : Archivist C × S → Archivist C × S
  after_minute (a, s) =
      if ltb (length a.hour_node.links_to_minutes) 60 then (a, s) else collect_hour a s

  unfoldable pub after_second : Archivist C × S → Archivist C × S
  after_second (a, s) =
      if ltb (length a.minute_node.links_to_seconds) 60
      then (a, s)
      else after_minute (collect_minute a s)

  unfoldable pub archive_buffered : Option (Second C) → Archivist C → S → Archivist C × S
  archive_buffered none a s = (a, s)
  archive_buffered (some node) a s = after_second (collect_second node a s)

  -- `archive_video_segment`
  unfoldable pub archive_video_segment : C → Archivist C → S → Archivist C × S
  archive_video_segment cid a s =
      archive_buffered a.video_chat_buffer
        (record a { video_chat_buffer = some (record { link_to_video = cid; links_to_chat = [] }) })
        s

  -- The loop of `start`, on the segments that were received.
  unfoldable pub archive_all : List C → Archivist C → S → Archivist C × S
  archive_all [] a s = (a, s)
  archive_all (cid ∷ cids) a s = let r = archive_video_segment cid a s in archive_all cids r.0 r.1

  -- The steps of `finalize` that collect what is left.
  unfoldable pub drain : Option (Second C) → Archivist C → S → Archivist C × S
  drain none a s = (a, s)
  drain (some node) a s = collect_second node a s

  unfoldable pub flush_second : Archivist C → S → Archivist C × S
  flush_second a s = drain a.video_chat_buffer (record a { video_chat_buffer = none }) s

  unfoldable pub flush_minute : Archivist C × S → Archivist C × S
  flush_minute (a, s) =
      if length a.minute_node.links_to_seconds == 0 then (a, s) else collect_minute a s

  unfoldable pub flush_hour : Archivist C × S → Archivist C × S
  flush_hour (a, s) = if length a.hour_node.links_to_minutes == 0 then (a, s) else collect_hour a s

  unfoldable pub flush : Archivist C → S → Archivist C × S
  flush a s = flush_hour (flush_minute (flush_second a s))

  -- `finalize`, with `pin_add` of the IPFS node: the link that is printed, none where there are no
  -- hours. Its errors are printed.
  unfoldable pub put_timecode : (C → Action S Unit) → Archivist C × S → Result (Option C) × S
  put_timecode pin_add (a, s) =
      if length a.day_node.links_to_hours == 0
      then (ok none, s)
      else (dag_put ipfs codecs.day a.day_node >>= λ cid.
            dag_put ipfs codecs.timecode (record { timecode = cid }) >>= λ cid'.
            pin_add cid' >>= λ _. pure (some cid'))
          s

  unfoldable pub finalize : (C → Action S Unit) → Archivist C → S → Result (Option C) × S
  finalize pin_add a s = put_timecode pin_add (flush a s)
