-- ===== src/DateTime/Contents.antt =====
-- What the chronological index holds: the values that a walk down its blocks finds at a time.
use rust_defluencer.Base.{
  ◌≡◌, Bool, false, Option, none, some, List, [], ◌∷◌, and_then, and_then-returned, Result, ok,
}
use rust_defluencer.Base.Key.{Key}
use rust_defluencer.Base.Sets.{set_contains, map_get}
use rust_defluencer.Ipfs.{Ipfs, Linked, Grows, get_or, get_or-Grows}
use rust_defluencer.LinkedData.DateTime.{Level}
use rust_defluencer.DateTime.{DateTime, Codecs, path_of}

abbrev pub in_set : {C : Type 0} ⦃links : Key C⦄ → C → Option (List C) → Bool
in_set a none = false
in_set a (some s) = set_contains a s

module _ {K C S : Type 0} ⦃numbers : Key K⦄ ⦃links : Key C⦄ (ipfs : Ipfs C S)
    (codecs : Codecs ipfs.Block K C) where
  unfoldable pub contains_in :
      List (K × Linked ipfs.Block (Level K C)) → K → C → Option C → S → Result Bool
  contains_in [] second a link s =
      and_then (get_or ipfs codecs.seconds (ok (record { second = [] })) link s)
        (λ seconds. ok (in_set a (map_get second seconds.second)))
  contains_in ((key, codec) ∷ path) second a link s =
      and_then (get_or ipfs codec (ok (record { entries = [] })) link s)
        (λ level. contains_in path second a (map_get key level.entries) s)

  unfoldable pub contains : DateTime K → C → Option C → S → Result Bool
  contains d a index s = contains_in (path_of codecs d) d.second a index s

  pub contains_in-Grows :
      (path : List (K × Linked ipfs.Block (Level K C))) (second : K) (a : C) (link : Option C)
      (x : Bool) (s s' : S)
      → Grows ipfs s s'
      → contains_in path second a link s ≡ ok x
      → contains_in path second a link s' ≡ ok x
  unfolding contains_in
  contains_in-Grows [] second a link x s s' g h =
      let (l, el, rest) =
        and_then-returned (get_or ipfs codecs.seconds (ok (record { second = [] })) link s) _ x h in
      rw (get_or-Grows ipfs codecs.seconds (record { second = [] }) l link s s' g el) rest
  contains_in-Grows ((key, codec) ∷ path) second a link x s s' g h =
      let (l, el, rest) =
        and_then-returned (get_or ipfs codec (ok (record { entries = [] })) link s) _ x h in
      rw (get_or-Grows ipfs codec (record { entries = [] }) l link s s' g el)
        (contains_in-Grows path second a (map_get key l.entries) x s s' g rest)
