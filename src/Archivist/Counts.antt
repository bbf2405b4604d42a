-- ===== src/Archivist/Counts.antt =====
-- How many seconds, minutes and hours have been collected.
use rust_defluencer.Base.{
  ℕ, suc, ◌+◌, ◌*◌, ◌<◌, ◌≤◌, ◌≡◌, inl, inr, Option, none, some, List, [], ◌∷◌, Bool-cases, ltb,
  ltb→lt, ltb→le, length, length-append, Result, ok, err, panic, arith,
}
use rust_defluencer.Ipfs.{Ipfs, Linked, dag_put}
use rust_defluencer.LinkedData.Video.{Second}
use rust_defluencer.Archivist.{
  Archivist, Codecs, new, stored, collect_second, collect_minute, collect_hour, after_minute,
  after_second, archive_buffered, archive_video_segment, archive_all,
}

abbrev pub seconds_of : {C : Type 0} → Archivist C → ℕ
seconds_of a = length a.minute_node.links_to_seconds

abbrev pub minutes_of : {C : Type 0} → Archivist C → ℕ
minutes_of a = length a.hour_node.links_to_minutes

abbrev pub hours_of : {C : Type 0} → Archivist C → ℕ
hours_of a = length a.day_node.links_to_hours

abbrev pub buffered : {A : Type 0} → Option A → ℕ
buffered none = 0
buffered (some x) = 1

-- The numbers of seconds and minutes are below sixty, and the time that they make is `n` seconds.
abbrev pub Counts : {C : Type 0} → ℕ → Archivist C → Type 0
Counts n a =
    (seconds_of a < 60)
    × (minutes_of a < 60)
    × (3600 * hours_of a + 60 * minutes_of a + seconds_of a + buffered a.video_chat_buffer ≡ n)

module _ {C S : Type 0} (ipfs : Ipfs C S) (codecs : Codecs ipfs.Block C)
    (puts : (b : ipfs.Block) (s : S) → (c : C) × ((ipfs.put_block b s).0 ≡ ok c)) where
  stored_all :
      (P : Archivist C → Type 0) (a : Archivist C) (f : C → Archivist C) (r : Result C × S) (c : C)
      → r.0 ≡ ok c
      → ((d : C) → P (f d))
      → P (stored ipfs codecs a f r).0
  stored_all P a f (ok d, s) c h k = k d
  stored_all P a f (err e, s) c h k = cc
  stored_all P a f (panic, s) c h k = cc

  -- What holds of the actor with any link holds after a store.
  pub dag_put-stored :
      (P : Archivist C → Type 0) {T : Type 0} (linked : Linked ipfs.Block T) (t : T) (s : S)
      (a : Archivist C) (f : C → Archivist C)
      → ((d : C) → P (f d))
      → P (stored ipfs codecs a f (dag_put ipfs linked t s)).0
  unfolding dag_put
  dag_put-stored P linked t s a f k =
      let (c, e) = puts (linked.encode t) s in
      stored_all P a f (ipfs.put_block (linked.encode t) s) c e k

  abbrev total : Archivist C → ℕ
  total a = 3600 * hours_of a + 60 * minutes_of a + seconds_of a + buffered a.video_chat_buffer

  collect_hour-Counts :
      (n : ℕ) (a : Archivist C) (s : S)
      → seconds_of a < 60
      → minutes_of a ≡ 60
      → total a ≡ n
      → Counts n (collect_hour ipfs codecs a s).0
  unfolding collect_hour
  collect_hour-Counts n a s l m e =
      dag_put-stored (Counts n) codecs.hour a.hour_node s a _
        (λ c. (l, omega arith, omega (arith, length-append a.day_node.links_to_hours (c ∷ []))))

  after_minute-Counts :
      (n : ℕ) (r : Archivist C × S)
      → seconds_of r.0 < 60
      → minutes_of r.0 ≤ 60
      → total r.0 ≡ n
      → Counts n (after_minute ipfs codecs r).0
  unfolding after_minute
  after_minute-Counts n (a, s) l m e = elim (Bool-cases (ltb (minutes_of a) 60)) [
    | inl t ↦ rw t (l, ltb→lt (minutes_of a) 60 t, e)
    | inr f ↦ rw f (
        let le : 60 ≤ minutes_of a = ltb→le (minutes_of a) 60 f in
        collect_hour-Counts n a s l (omega arith) e)
  ]

  abbrev Collected : ℕ → Archivist C → Type 0
  Collected n a = (seconds_of a < 60) × (minutes_of a ≤ 60) × (total a ≡ n)

  collect_minute-Collected :
      (n : ℕ) (a : Archivist C) (s : S)
      → seconds_of a ≡ 60
      → minutes_of a < 60
      → total a ≡ n
      → Collected n (collect_minute ipfs codecs a s).0
  unfolding collect_minute
  collect_minute-Collected n a s l m e =
      dag_put-stored (Collected n) codecs.minute a.minute_node s a _ (λ c. (
        omega arith,
        omega (arith, length-append a.hour_node.links_to_minutes (c ∷ [])),
        omega (arith, length-append a.hour_node.links_to_minutes (c ∷ [])),
      ))

  after_second-Counts :
      (n : ℕ) (r : Archivist C × S)
      → seconds_of r.0 ≤ 60
      → minutes_of r.0 < 60
      → total r.0 ≡ n
      → Counts n (after_second ipfs codecs r).0
  unfolding after_second
  after_second-Counts n (a, s) l m e = elim (Bool-cases (ltb (seconds_of a) 60)) [
    | inl t ↦ rw t (ltb→lt (seconds_of a) 60 t, m, e)
    | inr f ↦ rw f (
        let le : 60 ≤ seconds_of a = ltb→le (seconds_of a) 60 f in
        let (p, q, r) = collect_minute-Collected n a s (omega arith) m e in
        after_minute-Counts n (collect_minute ipfs codecs a s) p q r)
  ]

  abbrev Filled : ℕ → Archivist C → Type 0
  Filled n a = (seconds_of a ≤ 60) × (minutes_of a < 60) × (total a ≡ n)

  archive_buffered-Counts :
      (n : ℕ) (b : Option (Second C)) (a : Archivist C) (s : S)
      → seconds_of a < 60
      → minutes_of a < 60
      → total a + buffered b ≡ n
      → Counts n (archive_buffered ipfs codecs b a s).0
  unfolding archive_buffered collect_second
  archive_buffered-Counts n none a s l m e = (l, m, omega arith)
  archive_buffered-Counts n (some node) a s l m e =
      let (p, q, r) = dag_put-stored (Filled n) codecs.second node s a _ (λ c. (
        omega (arith, length-append a.minute_node.links_to_seconds (c ∷ [])),
        m,
        omega (arith, length-append a.minute_node.links_to_seconds (c ∷ [])),
      )) in
      after_second-Counts n (collect_second ipfs codecs node a s) p q r

  archive_video_segment-Counts :
      (n : ℕ) (cid : C) (a : Archivist C) (s : S)
      → Counts n a
      → Counts (suc n) (archive_video_segment ipfs codecs cid a s).0
  unfolding archive_video_segment
  archive_video_segment-Counts n cid a s (l, m, e) =
      archive_buffered-Counts (suc n) a.video_chat_buffer
        (record a { video_chat_buffer = some (record { link_to_video = cid; links_to_chat = [] }) })
        s l m (omega arith)

  archive_from-Counts :
      (n : ℕ) (cids : List C) (a : Archivist C) (s : S)
      → Counts n a
      → Counts (n + length cids) (archive_all ipfs codecs cids a s).0
  unfolding archive_all
  archive_from-Counts n [] a s (l, m, e) = (l, m, omega arith)
  archive_from-Counts n (cid ∷ cids) a s h =
      let r = archive_video_segment ipfs codecs cid a s in
      let (l, m, e) =
        archive_from-Counts (suc n) cids r.0 r.1 (archive_video_segment-Counts n cid a s h) in
      (l, m, omega arith)

  -- If the IPFS node stores every block, then after any sequence of segments the actor has less than
  -- sixty seconds and less than sixty minutes collected, and the time that its hours, minutes,
  -- seconds and buffer make up is the number of segments in seconds.
  pub archive_all-Counts :
      (cids : List C) (s : S) → Counts (length cids) (archive_all ipfs codecs cids new s).0
  unfolding new
  archive_all-Counts cids s =
      let (l, m, e) = archive_from-Counts 0 cids new s (omega arith, omega arith, omega arith) in
      (l, m, omega arith)
