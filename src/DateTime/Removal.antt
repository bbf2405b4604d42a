-- ===== src/DateTime/Removal.antt =====
-- `remove` of the chronological index, from the year down.
use rust_defluencer.Base.{
  ◌≡◌, refl, sym, ◌∙◌, ap, Bool, true, false, not, ◌&&◌, Option, none, some, if◌then◌else◌,
  and_then-returned, ok, pure, Ensures, Ensures-bind, Ensures-returned,
}
use rust_defluencer.Base.Key.{Key, same_key, same_key_refl}
use rust_defluencer.Base.Sets.{map_get}
use rust_defluencer.Ipfs.{Ipfs, Grows, dag_put, dag_get, dag_put-Ensures}
use rust_defluencer.LinkedData.DateTime.{Level}
use rust_defluencer.DateTime.{
  DateTime, Codecs, path_of, below_year, with_link, remove_in, put_year, remove,
}
use rust_defluencer.DateTime.Paths.{look, both, both_below, same_time, and_regroup}
use rust_defluencer.DateTime.Contents.{contains_in, contains, contains_in-Grows}
use rust_defluencer.DateTime.Remove.{
  Below, same_at, Below-level, none_below, map_get-with_link, remove_in-Ensures, at_key,
}

absent : (b x : Bool) → (not b && x) ≡ x → b ≡ true → false ≡ x
absent true x h q = h
absent false x h q = cc

module _ {K C S : Type 0} ⦃numbers : Key K⦄ ⦃links : Key C⦄ (ipfs : Ipfs C S)
    (codecs : Codecs ipfs.Block K C) (d e : DateTime K) (rem a : C) (x : Bool) where
  abbrev same : Bool
  same = same_at ipfs codecs d.second e.second rem a (both codecs d e)

  abbrev After : Bool × Option C → S → Type 0
  After r s' =
      (contains_in ipfs codecs (path_of codecs e) e.second a r.1 s' ≡ ok (not same && x))
      × (same ≡ true → r.0 ≡ x)

  stored :
      (yearly : Level K C) (link : Option C) (u : S) (c : C) (v : S)
      → contains_in ipfs codecs
          (look (both_below codecs d e))
          e.second
          a
          (if same_key e.year d.year then link else map_get e.year yearly.entries)
          u
        ≡ ok (not same && x)
      → dag_get ipfs codecs.yearly c v ≡ ok (with_link d.year yearly link)
      → Grows ipfs u v
      → contains_in ipfs codecs (path_of codecs e) e.second a (some c) v ≡ ok (not same && x)
  unfolding contains_in
  stored yearly link u c v h load grows =
      rw (load, map_get-with_link ipfs codecs d.second e.second rem a e.year d.year yearly link)
        (contains_in-Grows ipfs codecs (look (both_below codecs d e)) e.second a
          (if same_key e.year d.year then link else map_get e.year yearly.entries) _ u v grows h)

  put_year-Ensures :
      (index : C) (yearly : Level K C) (s u : S) (r : Option (Bool × Option C))
      → contains_in ipfs codecs (path_of codecs e) e.second a (some index) s ≡ ok x
      → Grows ipfs s u
      → Below ipfs codecs d.second e.second rem a (both_below codecs d e) d.year e.year yearly x r u
      → Ensures After (put_year ipfs codecs d.year yearly (some index) r u)
  unfolding put_year
  put_year-Ensures index yearly s u none h g b = (
    contains_in-Grows ipfs codecs (path_of codecs e) e.second a (some index) x s u g h
        ∙ ap ok (sym b),
    absent same x b,
  )
  put_year-Ensures index yearly s u (some (result, link)) h g b =
      let rest = with_link d.year yearly link in
      Ensures-bind (λ (c : C) (v : S). (dag_get ipfs codecs.yearly c v ≡ ok rest) × Grows ipfs u v)
        After (dag_put ipfs codecs.yearly rest) (λ cid. pure (result, some cid)) u
        (dag_put-Ensures ipfs codecs.yearly rest u)
        (λ c _ put. (stored yearly link u c _ b.0 put.0 put.1, b.1))

  remove-Ensures :
      (index : Option C) (s : S)
      → contains_in ipfs codecs (path_of codecs e) e.second a index s ≡ ok x
      → Ensures After (remove ipfs codecs d index rem s)
  unfolding remove contains_in
  remove-Ensures none s h =
      let gone = none_below ipfs codecs d.second e.second rem a (path_of codecs e) same x s h in
      (h ∙ ap ok (sym gone), absent same x gone)
  remove-Ensures (some index) s h =
      let (yearly, load, rest) = and_then-returned (dag_get ipfs codecs.yearly index s) _ x h in
      let ps = both_below codecs d e in
      rw load (
        Ensures-bind
          (λ r u.
            Below ipfs codecs d.second e.second rem a ps d.year e.year yearly x r u
            × Grows ipfs s u)
          After
          (remove_in ipfs codecs (below_year codecs d) d.second rem (map_get d.year yearly.entries))
          (put_year ipfs codecs d.year yearly (some index)) s
          (Below-level ipfs codecs d.second e.second rem a ps d.year e.year yearly x s rest (λ q.
            remove_in-Ensures ipfs codecs d.second e.second rem a ps x
              (map_get d.year yearly.entries) s
              (at_key ipfs codecs d.second e.second rem a ps d.year e.year yearly x s q rest)))
          (λ r _ b. put_year-Ensures index yearly s _ r h b.1 b.0))

-- Where the old index can be read and `remove` returns, what `remove` says is whether the index had
-- the value at the time, and the index that it gives back lacks that value there, and of any value at
-- any other time says what the old one said.
pub contains-remove :
    {K C S : Type 0} ⦃numbers : Key K⦄ ⦃links : Key C⦄ (ipfs : Ipfs C S)
    (codecs : Codecs ipfs.Block K C) (d e : DateTime K) (index : Option C) (rem a : C) (x y : Bool)
    (s : S) (result : Bool) (index' : Option C) (s' : S)
    → contains ipfs codecs e a index s ≡ ok x
    → contains ipfs codecs d rem index s ≡ ok y
    → remove ipfs codecs d index rem s ≡ (ok (result, index'), s')
    → (contains ipfs codecs e a index' s' ≡ ok (not (same_time e d && same_key a rem) && x))
      × (result ≡ y)
unfolding contains
contains-remove ipfs codecs d e index rem a x y s result index' s' h was run =
    let after =
      Ensures-returned (After ipfs codecs d e rem a x) (remove ipfs codecs d index rem s)
        (result, index') s' (remove-Ensures ipfs codecs d e rem a x index s h) run in
    let at =
      Ensures-returned (After ipfs codecs d d rem rem y) (remove ipfs codecs d index rem s)
        (result, index') s' (remove-Ensures ipfs codecs d d rem rem y index s was) run in
    let grouped =
      and_regroup (same_key e.year d.year) (same_key e.month d.month) (same_key e.day d.day)
        (same_key e.hour d.hour) (same_key e.minute d.minute) (same_key e.second d.second)
        (same_key a rem) in
    (
      after.0 ∙ ap (λ b. ok (not b && x)) grouped,
      at.1 (
          rw
            (
              same_key_refl d.year,
              same_key_refl d.month,
              same_key_refl d.day,
              same_key_refl d.hour,
              same_key_refl d.minute,
              same_key_refl d.second,
              same_key_refl rem,
            )
            refl),
    )
