-- ===== src/Archivist/Videos.antt =====
-- The segments that can be read back from what the actor has filed.
use rust_defluencer.Base.{
  ◌≡◌, refl, sym, ap, ◌∙◌, Option, none, some, List, [], ◌∷◌, ◌++◌, Result, ok, and_then,
  and_then-returned, returned_unique,
}
use mathlib.Core.List.{append-nil, append_assoc}
use rust_defluencer.Ipfs.{Ipfs, Grows, dag_get, dag_get-Grows}
use rust_defluencer.LinkedData.Video.{Second}
use rust_defluencer.Archivist.{Archivist, Codecs}

module _ {C : Type 0} where
  -- What is read through a list of links, in order.
  unfoldable pub gather : (C → Result (List C)) → List C → Result (List C)
  gather f [] = ok []
  gather f (c ∷ cs) = and_then (f c) (λ xs. and_then (gather f cs) (λ ys. ok (xs ++ ys)))

  pub gather-append_one :
      (f : C → Result (List C)) (cs : List C) (c : C) (xs ys : List C)
      → gather f cs ≡ ok xs
      → f c ≡ ok ys
      → gather f (cs ++ c ∷ []) ≡ ok (xs ++ ys)
  unfolding gather
  gather-append_one f [] c xs ys h k =
      let e : [] ≡ xs = returned_unique (ok xs) [] xs (sym h) refl in
      rw (k, gather) (ap ok (append-nil ys ∙ ap (λ zs. zs ++ ys) e))
  gather-append_one f (d ∷ cs) c xs ys h k =
      let (us, e, rest) = and_then-returned (f d) _ xs h in
      let (vs, e', last) = and_then-returned (gather f cs) _ xs rest in
      let joined : us ++ vs ≡ xs = returned_unique (ok xs) (us ++ vs) xs (sym last) refl in
      rw (e, gather)
        (rw (gather-append_one f cs c vs ys e' k)
          (ap ok (sym (append_assoc us vs ys) ∙ ap (λ zs. zs ++ ys) joined)))

  pub gather-imp :
      (f g : C → Result (List C)) (cs : List C) (xs : List C)
      → ((c : C) (ys : List C) → f c ≡ ok ys → g c ≡ ok ys)
      → gather f cs ≡ ok xs
      → gather g cs ≡ ok xs
  unfolding gather
  gather-imp f g [] xs k h = h
  gather-imp f g (c ∷ cs) xs k h =
      let (us, e, rest) = and_then-returned (f c) _ xs h in
      let (vs, e', last) = and_then-returned (gather f cs) _ xs rest in
      rw (k c us e, gather) (rw (gather-imp f g cs vs k e') last)

module _ {C S : Type 0} (ipfs : Ipfs C S) (codecs : Codecs ipfs.Block C) where
  -- The segments that are read through the link to a second, to a minute and to an hour.
  unfoldable pub second_videos : S → C → Result (List C)
  second_videos s c =
      and_then (dag_get ipfs codecs.second c s) (λ second. ok (second.link_to_video ∷ []))

  unfoldable pub minute_videos : S → C → Result (List C)
  minute_videos s c =
      and_then (dag_get ipfs codecs.minute c s)
        (λ minute. gather (second_videos s) minute.links_to_seconds)

  unfoldable pub hour_videos : S → C → Result (List C)
  hour_videos s c =
      and_then (dag_get ipfs codecs.hour c s)
        (λ hour. gather (minute_videos s) hour.links_to_minutes)

  abbrev pub of_buffer : Option (Second C) → List C
  of_buffer none = []
  of_buffer (some second) = second.link_to_video ∷ []

  -- All segments that are filed, and the one in the buffer.
  unfoldable pub archived : Archivist C → S → Result (List C)
  archived a s = and_then (gather (hour_videos s) a.day_node.links_to_hours) (λ hours.
      and_then (gather (minute_videos s) a.hour_node.links_to_minutes) (λ minutes.
        and_then (gather (second_videos s) a.minute_node.links_to_seconds)
          (λ seconds. ok ((hours ++ (minutes ++ seconds)) ++ of_buffer a.video_chat_buffer))))

  -- The segments that are filed in hours.
  unfoldable pub archived_hours : Archivist C × S → Result (List C)
  archived_hours (a, s) = gather (hour_videos s) a.day_node.links_to_hours

  pub second_videos-Grows :
      (s s' : S)
      → Grows ipfs s s'
      → (c : C) (xs : List C) → second_videos s c ≡ ok xs
      → second_videos s' c ≡ ok xs
  unfolding second_videos
  second_videos-Grows s s' g c xs h =
      let (n, e, rest) = and_then-returned (dag_get ipfs codecs.second c s) _ xs h in
      rw (dag_get-Grows ipfs codecs.second c s s' n g e) rest

  pub minute_videos-Grows :
      (s s' : S)
      → Grows ipfs s s'
      → (c : C) (xs : List C) → minute_videos s c ≡ ok xs
      → minute_videos s' c ≡ ok xs
  unfolding minute_videos
  minute_videos-Grows s s' g c xs h =
      let (n, e, rest) = and_then-returned (dag_get ipfs codecs.minute c s) _ xs h in
      rw (dag_get-Grows ipfs codecs.minute c s s' n g e) (
        gather-imp (second_videos s) (second_videos s') n.links_to_seconds xs
          (second_videos-Grows s s' g) rest)

  pub hour_videos-Grows :
      (s s' : S)
      → Grows ipfs s s'
      → (c : C) (xs : List C) → hour_videos s c ≡ ok xs
      → hour_videos s' c ≡ ok xs
  unfolding hour_videos
  hour_videos-Grows s s' g c xs h =
      let (n, e, rest) = and_then-returned (dag_get ipfs codecs.hour c s) _ xs h in
      rw (dag_get-Grows ipfs codecs.hour c s s' n g e) (
        gather-imp (minute_videos s) (minute_videos s') n.links_to_minutes xs
          (minute_videos-Grows s s' g) rest)

  -- What is read of the three levels, and what is in the buffer.
  pub record Filed (buffer : Option (Second C)) (xs : List C) (a : Archivist C) (s : S)
      : Type 0 where
    pub in_hours : List C
    pub in_minutes : List C
    pub in_seconds : List C
    pub buffered : a.video_chat_buffer ≡ buffer
    pub hours : gather (hour_videos s) a.day_node.links_to_hours ≡ ok in_hours
    pub minutes : gather (minute_videos s) a.hour_node.links_to_minutes ≡ ok in_minutes
    pub seconds : gather (second_videos s) a.minute_node.links_to_seconds ≡ ok in_seconds
    pub all : in_hours ++ (in_minutes ++ in_seconds) ≡ xs
