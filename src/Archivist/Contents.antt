-- ===== src/Archivist/Contents.antt =====
-- What can be read back of the segments that were received, and of those that `finalize` files.
use rust_defluencer.Base.{
  ℕ, ◌≡◌, refl, sym, ap, ◌∙◌, inl, inr, Option, none, some, List, [], ◌∷◌, ◌++◌, Bool-cases, ltb,
  ◌==◌, length, Result, ok, err, panic, subst, returned_unique, arith,
}
use mathlib.Core.List.{append-nil, append_assoc}
use rust_defluencer.Ipfs.{Ipfs, Linked, Grows, Grows-dag_put, dag_put, dag_get, dag_get-dag_put}
use rust_defluencer.LinkedData.Video.{Second}
use rust_defluencer.Archivist.{
  Archivist, Codecs, new, stored, collect_second, collect_minute, collect_hour, after_minute,
  after_second, archive_buffered, archive_video_segment, archive_all, drain, flush_second,
  flush_minute, flush_hour, flush,
}
use rust_defluencer.Archivist.Videos.{
  gather, gather-append_one, gather-imp, second_videos, minute_videos, hour_videos, of_buffer,
  archived, archived_hours, second_videos-Grows, minute_videos-Grows, hour_videos-Grows, Filed,
}
use rust_defluencer.Archivist.Flush.{Flushed, flush-Flushed}

module _ {C S : Type 0} (ipfs : Ipfs C S) (codecs : Codecs ipfs.Block C)
    (puts : (b : ipfs.Block) (s : S) → (c : C) × ((ipfs.put_block b s).0 ≡ ok c)) where
  stored_with :
      (Q : Archivist C × S → Type 0) (a : Archivist C) (f : C → Archivist C) (r : Result C × S)
      (c : C)
      → r.0 ≡ ok c
      → ((d : C) → r.0 ≡ ok d → Q (f d, r.1))
      → Q (stored ipfs codecs a f r)
  stored_with Q a f (ok d, s) c h k = k d refl
  stored_with Q a f (err e, s) c h k = cc
  stored_with Q a f (panic, s) c h k = cc

  -- What holds wherever the block can be read through the link and no other is lost.
  dag_put-read :
      (Q : Archivist C × S → Type 0) {T : Type 0} (linked : Linked ipfs.Block T) (t : T) (s : S)
      (a : Archivist C) (f : C → Archivist C)
      → ((d : C) (s' : S) → dag_get ipfs linked d s' ≡ ok t → Grows ipfs s s' → Q (f d, s'))
      → Q (stored ipfs codecs a f (dag_put ipfs linked t s))
  unfolding dag_put
  dag_put-read Q linked t s a f k =
      let (c, e) = puts (linked.encode t) s in
      stored_with Q a f (dag_put ipfs linked t s) c e
        (λ d put. k d _ (dag_get-dag_put ipfs linked t s d put) (Grows-dag_put ipfs linked t s))

  abbrev FiledAt : Option (Second C) → List C → Archivist C × S → Type 0
  FiledAt b xs r = Filed ipfs codecs b xs r.0 r.1

  collect_second-Filed :
      (b : Option (Second C)) (xs : List C) (node : Second C) (a : Archivist C) (s : S)
      → Filed ipfs codecs b xs a s
      → FiledAt b (xs ++ node.link_to_video ∷ []) (collect_second ipfs codecs node a s)
  unfolding collect_second second_videos
  collect_second-Filed b xs node a s h =
      dag_put-read (FiledAt b (xs ++ node.link_to_video ∷ [])) codecs.second node s a _
        (λ c s' load grows. record {
          in_hours = h.in_hours;
          in_minutes = h.in_minutes;
          in_seconds = h.in_seconds ++ node.link_to_video ∷ [];
          buffered = h.buffered;
          hours = gather-imp _ _ _ _ (hour_videos-Grows ipfs codecs s s' grows) h.hours;
          minutes = gather-imp _ _ _ _ (minute_videos-Grows ipfs codecs s s' grows) h.minutes;
          seconds =
              gather-append_one (second_videos ipfs codecs s') a.minute_node.links_to_seconds c
                h.in_seconds (node.link_to_video ∷ [])
                (gather-imp _ _ _ _ (second_videos-Grows ipfs codecs s s' grows) h.seconds)
                (rw load refl);
          all =
              ap (λ zs. h.in_hours ++ zs)
                (sym (append_assoc h.in_minutes h.in_seconds (node.link_to_video ∷ [])))
              ∙ sym
                  (append_assoc h.in_hours (h.in_minutes ++ h.in_seconds) (node.link_to_video ∷ []))
              ∙ ap (λ zs. zs ++ node.link_to_video ∷ []) h.all;
        })

  collect_minute-Filed :
      (b : Option (Second C)) (xs : List C) (a : Archivist C) (s : S)
      → Filed ipfs codecs b xs a s
      → FiledAt b xs (collect_minute ipfs codecs a s)
  unfolding collect_minute minute_videos gather
  collect_minute-Filed b xs a s h =
      dag_put-read (FiledAt b xs) codecs.minute a.minute_node s a _ (λ c s' load grows. record {
        in_hours = h.in_hours;
        in_minutes = h.in_minutes ++ h.in_seconds;
        in_seconds = [];
        buffered = h.buffered;
        hours = gather-imp _ _ _ _ (hour_videos-Grows ipfs codecs s s' grows) h.hours;
        minutes =
            gather-append_one (minute_videos ipfs codecs s') a.hour_node.links_to_minutes c
              h.in_minutes h.in_seconds
              (gather-imp _ _ _ _ (minute_videos-Grows ipfs codecs s s' grows) h.minutes)
              (rw load (gather-imp _ _ _ _ (second_videos-Grows ipfs codecs s s' grows) h.seconds));
        seconds = refl;
        all = ap (λ zs. h.in_hours ++ zs) (append-nil (h.in_minutes ++ h.in_seconds)) ∙ h.all;
      })

  collect_hour-Filed :
      (b : Option (Second C)) (xs : List C) (a : Archivist C) (s : S)
      → Filed ipfs codecs b xs a s
      → FiledAt b xs (collect_hour ipfs codecs a s)
  unfolding collect_hour hour_videos gather
  collect_hour-Filed b xs a s h =
      dag_put-read (FiledAt b xs) codecs.hour a.hour_node s a _ (λ c s' load grows. record {
        in_hours = h.in_hours ++ h.in_minutes;
        in_minutes = [];
        in_seconds = h.in_seconds;
        buffered = h.buffered;
        hours =
            gather-append_one (hour_videos ipfs codecs s') a.day_node.links_to_hours c h.in_hours
              h.in_minutes (gather-imp _ _ _ _ (hour_videos-Grows ipfs codecs s s' grows) h.hours)
              (rw load (gather-imp _ _ _ _ (minute_videos-Grows ipfs codecs s s' grows) h.minutes));
        minutes = refl;
        seconds = gather-imp _ _ _ _ (second_videos-Grows ipfs codecs s s' grows) h.seconds;
        all = append_assoc h.in_hours h.in_minutes h.in_seconds ∙ h.all;
      })

  after_minute-Filed :
      (b : Option (Second C)) (xs : List C) (r : Archivist C × S)
      → FiledAt b xs r
      → FiledAt b xs (after_minute ipfs codecs r)
  unfolding after_minute
  after_minute-Filed b xs (a, s) h =
      elim (Bool-cases (ltb (length a.hour_node.links_to_minutes) 60)) [
        | inl e ↦ rw e h
        | inr e ↦ rw e (collect_hour-Filed b xs a s h)
      ]

  after_second-Filed :
      (b : Option (Second C)) (xs : List C) (r : Archivist C × S)
      → FiledAt b xs r
      → FiledAt b xs (after_second ipfs codecs r)
  unfolding after_second
  after_second-Filed b xs (a, s) h =
      elim (Bool-cases (ltb (length a.minute_node.links_to_seconds) 60)) [
        | inl e ↦ rw e h
        | inr e ↦ rw e (
            after_minute-Filed b xs (collect_minute ipfs codecs a s)
              (collect_minute-Filed b xs a s h))
      ]

  archive_buffered-Filed :
      (b node : Option (Second C)) (xs : List C) (a : Archivist C) (s : S)
      → Filed ipfs codecs b xs a s
      → FiledAt b (xs ++ of_buffer ipfs codecs node) (archive_buffered ipfs codecs node a s)
  unfolding archive_buffered
  archive_buffered-Filed b none xs a s h = rw (append-nil xs) h
  archive_buffered-Filed b (some node) xs a s h =
      after_second-Filed b (xs ++ node.link_to_video ∷ []) (collect_second ipfs codecs node a s)
        (collect_second-Filed b xs node a s h)

  -- What is read, with the buffer at the end, is `xs`.
  abbrev Archived : List C → Archivist C × S → Type 0
  Archived xs r =
      (b : Option (Second C)) × (ys : List C) × FiledAt b ys r
      × (ys ++ of_buffer ipfs codecs b ≡ xs)

  rebuffered :
      (b b' : Option (Second C)) (ys : List C) (a : Archivist C) (s : S)
      → Filed ipfs codecs b ys a s
      → Filed ipfs codecs b' ys (record a { video_chat_buffer = b' }) s
  rebuffered b b' ys a s h = record {
    in_hours = h.in_hours;
    in_minutes = h.in_minutes;
    in_seconds = h.in_seconds;
    buffered = refl;
    hours = h.hours;
    minutes = h.minutes;
    seconds = h.seconds;
    all = h.all;
  }

  archive_video_segment-Archived :
      (cid : C) (xs : List C) (r : Archivist C × S)
      → Archived xs r
      → Archived (xs ++ cid ∷ []) (archive_video_segment ipfs codecs cid r.0 r.1)
  unfolding archive_video_segment
  archive_video_segment-Archived cid xs (a, s) (b, ys, h, e) =
      let next : Option (Second C) = some (record { link_to_video = cid; links_to_chat = [] }) in
      (
        next,
        ys ++ of_buffer ipfs codecs a.video_chat_buffer,
        archive_buffered-Filed next a.video_chat_buffer ys (record a { video_chat_buffer = next }) s
            (rebuffered b next ys a s h),
        ap (λ zs. zs ++ cid ∷ []) (ap (λ o. ys ++ of_buffer ipfs codecs o) h.buffered ∙ e),
      )

  archive_from-Archived :
      (cids xs : List C) (r : Archivist C × S)
      → Archived xs r
      → Archived (xs ++ cids) (archive_all ipfs codecs cids r.0 r.1)
  unfolding archive_all
  archive_from-Archived [] xs r h = rw (append-nil xs) h
  archive_from-Archived (cid ∷ cids) xs r h = rw⁻¹ (append_assoc xs (cid ∷ []) cids) (
      archive_from-Archived cids (xs ++ cid ∷ []) (archive_video_segment ipfs codecs cid r.0 r.1)
        (archive_video_segment-Archived cid xs r h))

  new-Archived : (s : S) → Archived [] (new, s)
  unfolding new gather
  new-Archived s = (
    none,
    [],
    record {
      in_hours = [];
      in_minutes = [];
      in_seconds = [];
      buffered = refl;
      hours = refl;
      minutes = refl;
      seconds = refl;
      all = refl;
    },
    refl,
  )

  Archived-archived :
      (xs : List C) (r : Archivist C × S) → Archived xs r → archived ipfs codecs r.0 r.1 ≡ ok xs
  unfolding archived
  Archived-archived xs r (b, ys, h, e) =
      rw (h.hours, h.minutes, h.seconds, h.buffered, h.all) (ap ok e)

  flush_second-Filed :
      (xs : List C) (r : Archivist C × S)
      → Archived xs r
      → FiledAt none xs (flush_second ipfs codecs r.0 r.1)
  unfolding flush_second drain
  flush_second-Filed xs (a, s) (b, ys, h, e) =
      subst (λ zs. FiledAt none zs (flush_second ipfs codecs a s))
        (ap (λ o. ys ++ of_buffer ipfs codecs o) h.buffered ∙ e)
        (drained a.video_chat_buffer (record a { video_chat_buffer = none })
          (rebuffered b none ys a s h))
    where
      drained :
          (o : Option (Second C)) (a' : Archivist C)
          → Filed ipfs codecs none ys a' s
          → FiledAt none (ys ++ of_buffer ipfs codecs o) (drain ipfs codecs o a' s)
      drained none a' h = rw (append-nil ys) h
      drained (some node) a' h = collect_second-Filed none ys node a' s h

  flush_minute-Filed :
      (xs : List C) (r : Archivist C × S)
      → FiledAt none xs r
      → FiledAt none xs (flush_minute ipfs codecs r)
  unfolding flush_minute
  flush_minute-Filed xs (a, s) h = elim (Bool-cases (length a.minute_node.links_to_seconds == 0)) [
    | inl e ↦ rw e h
    | inr e ↦ rw e (collect_minute-Filed none xs a s h)
  ]

  flush_hour-Filed :
      (xs : List C) (r : Archivist C × S)
      → FiledAt none xs r
      → FiledAt none xs (flush_hour ipfs codecs r)
  unfolding flush_hour
  flush_hour-Filed xs (a, s) h = elim (Bool-cases (length a.hour_node.links_to_minutes == 0)) [
    | inl e ↦ rw e h
    | inr e ↦ rw e (collect_hour-Filed none xs a s h)
  ]

  -- Where there are no links, nothing is read.
  gather-none :
      (f : C → Result (List C)) (cs xs : List C) → length cs ≡ 0 → gather f cs ≡ ok xs → xs ≡ []
  unfolding gather
  gather-none f [] xs l h = returned_unique (ok xs) xs [] refl (sym h)
  gather-none f (c ∷ cs) xs l h = absurd (omega (arith, l))

  in_hours_only :
      (n : ℕ) (xs : List C) (r : Archivist C × S)
      → FiledAt none xs r
      → Flushed n r.0
      → archived_hours ipfs codecs r ≡ ok xs
  unfolding archived_hours
  in_hours_only n xs r h (seconds, minutes, hours) =
      h.hours
      ∙ ap ok (
          sym (append-nil h.in_hours)
          ∙ sym (
              ap (λ zs. h.in_hours ++ zs)
                (ap (λ zs. zs ++ h.in_seconds) (gather-none _ _ h.in_minutes minutes h.minutes)
                  ∙ gather-none _ _ h.in_seconds seconds h.seconds))
          ∙ h.all)

  -- If the IPFS node stores every block, then after any sequence of segments all of them can be read
  -- back, each once and in the order they came in, from the hours, the minutes, the seconds and the
  -- buffer; and after the steps of `finalize`, from the hours alone.
  pub archived-archive_all :
      (cids : List C) (s : S)
      → (archived ipfs codecs
            (archive_all ipfs codecs cids new s).0
            (archive_all ipfs codecs cids new s).1
          ≡ ok cids)
        × (archived_hours ipfs codecs (
              flush ipfs codecs
                (archive_all ipfs codecs cids new s).0
                (archive_all ipfs codecs cids new s).1)
            ≡ ok cids)
  archived-archive_all cids s =
      let whole = archive_from-Archived cids [] (new, s) (new-Archived s) in
      let r = archive_all ipfs codecs cids new s in
      (
        Archived-archived cids r whole,
        in_hours_only (length cids) cids (flush ipfs codecs r.0 r.1)
            (unfold flush in
              flush_hour-Filed cids (flush_minute ipfs codecs (flush_second ipfs codecs r.0 r.1)) (
                flush_minute-Filed cids (flush_second ipfs codecs r.0 r.1)
                  (flush_second-Filed cids r whole)))
            (flush-Flushed ipfs codecs puts cids s),
      )
