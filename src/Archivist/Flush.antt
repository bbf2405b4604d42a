-- ===== src/Archivist/Flush.antt =====
-- What `finalize` collects in the end.
use rust_defluencer.Base.{
  ℕ, ◌+◌, ◌*◌, ◌/◌, ◌<◌, ◌≤◌, ◌≡◌, refl, inl, inr, true, false, Option, none, some, List, [], ◌∷◌,
  Bool-cases, ◌==◌, length, length-append, ok, arith,
}
use rust_defluencer.Ipfs.{Ipfs}
use rust_defluencer.LinkedData.Video.{Second}
use rust_defluencer.Archivist.{
  Archivist, Codecs, new, collect_second, collect_minute, collect_hour, archive_all, drain,
  flush_second, flush_minute, flush_hour, flush,
}
use rust_defluencer.Archivist.Counts.{
  seconds_of, minutes_of, hours_of, buffered, Counts, dag_put-stored, archive_all-Counts,
}

zero_or_more : (n : ℕ) → (n == 0) ≡ false → 0 < n
zero_or_more n h = ground arith

is_zero : (n : ℕ) → (n == 0) ≡ true → n ≡ 0
is_zero n h = ground arith

-- The bounds in the end.
abbrev pub Flushed : {C : Type 0} → ℕ → Archivist C → Type 0
Flushed n a = (seconds_of a ≡ 0) × (minutes_of a ≡ 0) × (hours_of a ≡ (n + 3599) / 3600)

module _ {C S : Type 0} (ipfs : Ipfs C S) (codecs : Codecs ipfs.Block C)
    (puts : (b : ipfs.Block) (s : S) → (c : C) × ((ipfs.put_block b s).0 ≡ ok c)) where
  -- The bounds after the buffer, and after the minute.
  abbrev SecondsLeft : ℕ → Archivist C → Type 0
  SecondsLeft n a =
      (seconds_of a ≤ 60)
      × (minutes_of a < 60)
      × (3600 * hours_of a + 60 * minutes_of a + seconds_of a ≡ n)

  abbrev MinutesLeft : ℕ → Archivist C → Type 0
  MinutesLeft n a =
      (seconds_of a ≡ 0)
      × (minutes_of a ≤ 60)
      × (3600 * hours_of a + 60 * minutes_of a < n + 60)
      × (n ≤ 3600 * hours_of a + 60 * minutes_of a)

  drain-SecondsLeft :
      (n : ℕ) (b : Option (Second C)) (a : Archivist C) (s : S)
      → seconds_of a < 60
      → minutes_of a < 60
      → 3600 * hours_of a + 60 * minutes_of a + seconds_of a + buffered b ≡ n
      → SecondsLeft n (drain ipfs codecs b a s).0
  unfolding drain collect_second
  drain-SecondsLeft n none a s l m e = (omega arith, m, omega arith)
  drain-SecondsLeft n (some node) a s l m e =
      dag_put-stored ipfs codecs puts (SecondsLeft n) codecs.second node s a _ (λ c. (
        omega (arith, length-append a.minute_node.links_to_seconds (c ∷ [])),
        m,
        omega (arith, length-append a.minute_node.links_to_seconds (c ∷ [])),
      ))

  flush_minute-MinutesLeft :
      (n : ℕ) (r : Archivist C × S)
      → SecondsLeft n r.0
      → MinutesLeft n (flush_minute ipfs codecs r).0
  unfolding flush_minute collect_minute
  flush_minute-MinutesLeft n (a, s) (l, m, e) = elim (Bool-cases (seconds_of a == 0)) [
    | inl z ↦ rw z (
        let q : seconds_of a ≡ 0 = is_zero (seconds_of a) z in
        (q, omega arith, omega arith, omega arith))
    | inr z ↦ rw z (
        let q : 0 < seconds_of a = zero_or_more (seconds_of a) z in
        dag_put-stored ipfs codecs puts (MinutesLeft n) codecs.minute a.minute_node s a _ (λ c. (
          refl,
          omega (arith, length-append a.hour_node.links_to_minutes (c ∷ [])),
          omega (arith, length-append a.hour_node.links_to_minutes (c ∷ [])),
          omega (arith, length-append a.hour_node.links_to_minutes (c ∷ [])),
        )))
  ]

  flush_hour-Flushed :
      (n : ℕ) (r : Archivist C × S) → MinutesLeft n r.0 → Flushed n (flush_hour ipfs codecs r).0
  unfolding flush_hour collect_hour
  flush_hour-Flushed n (a, s) (l, m, e, f) = elim (Bool-cases (minutes_of a == 0)) [
    | inl z ↦ rw z (let q : minutes_of a ≡ 0 = is_zero (minutes_of a) z in (l, q, omega arith))
    | inr z ↦ rw z (
        let q : 0 < minutes_of a = zero_or_more (minutes_of a) z in
        dag_put-stored ipfs codecs puts (Flushed n) codecs.hour a.hour_node s a _
          (λ c. (l, refl, omega (arith, length-append a.day_node.links_to_hours (c ∷ [])))))
  ]

  flush_from-Flushed :
      (n : ℕ) (a : Archivist C) (s : S) → Counts n a → Flushed n (flush ipfs codecs a s).0
  unfolding flush flush_second
  flush_from-Flushed n a s (l, m, e) =
      flush_hour-Flushed n (flush_minute ipfs codecs (flush_second ipfs codecs a s)) (
        flush_minute-MinutesLeft n (flush_second ipfs codecs a s)
          (drain-SecondsLeft n a.video_chat_buffer (record a { video_chat_buffer = none }) s l m e))

  -- If the IPFS node stores every block, what `finalize` collects after any sequence of segments
  -- leaves no second and no minute behind, and one hour for each 3600 segments, the last one begun.
  pub flush-Flushed :
      (cids : List C) (s : S)
      → Flushed
          (length cids)
          (flush ipfs codecs
            (archive_all ipfs codecs cids new s).0
            (archive_all ipfs codecs cids new s).1).0
  flush-Flushed cids s =
      let r = archive_all ipfs codecs cids new s in
      flush_from-Flushed (length cids) r.0 r.1 (archive_all-Counts ipfs codecs puts cids s)
