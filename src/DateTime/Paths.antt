-- ===== src/DateTime/Paths.antt =====
-- Two times as paths through the levels of the index, and whether they are one.
use rust_defluencer.Base.{◌≡◌, refl, Bool, true, false, ◌&&◌, ◌||◌, List, [], ◌∷◌}
use rust_defluencer.Base.Key.{Key, same_key}
use rust_defluencer.Ipfs.{Linked}
use rust_defluencer.LinkedData.DateTime.{Level}
use rust_defluencer.DateTime.{DateTime, Codecs}

-- For each level the key of the first path and that of the second.
abbrev pub Paths : Type 0 → Type 0 → Type 0 → Type 0
Paths Block K C = List (K × K × Linked Block (Level K C))

module _ {Block K C : Type 0} where
  abbrev pub into : Paths Block K C → List (K × Linked Block (Level K C))
  into [] = []
  into ((k, j, codec) ∷ ps) = (k, codec) ∷ into ps

  abbrev pub look : Paths Block K C → List (K × Linked Block (Level K C))
  look [] = []
  look ((k, j, codec) ∷ ps) = (j, codec) ∷ look ps

module _ {Block K C : Type 0} ⦃numbers : Key K⦄ where
  abbrev pub same_path : Paths Block K C → Bool → Bool
  same_path [] last = last
  same_path ((k, j, codec) ∷ ps) last = same_key j k && same_path ps last

  abbrev pub both_below : Codecs Block K C → DateTime K → DateTime K → Paths Block K C
  both_below codecs d e =
      (d.month, e.month, codecs.monthly)
      ∷ (d.day, e.day, codecs.daily)
      ∷ (d.hour, e.hour, codecs.hourly)
      ∷ (d.minute, e.minute, codecs.minutes)
      ∷ []

  abbrev pub both : Codecs Block K C → DateTime K → DateTime K → Paths Block K C
  both codecs d e = (d.year, e.year, codecs.yearly) ∷ both_below codecs d e

module _ {K : Type 0} ⦃numbers : Key K⦄ where
  abbrev pub same_time : DateTime K → DateTime K → Bool
  same_time e d =
      same_key e.year d.year
      && (same_key e.month d.month
          && (same_key e.day d.day
              && (same_key e.hour d.hour
                  && (same_key e.minute d.minute && same_key e.second d.second))))

-- The last test of six and a seventh, taken together or apart.
pub and_regroup :
    (a b c d e f g : Bool)
    → (a && (b && (c && (d && (e && (f && g)))))) ≡ ((a && (b && (c && (d && (e && f))))) && g)
and_regroup false b c d e f g = refl
and_regroup true false c d e f g = refl
and_regroup true true false d e f g = refl
and_regroup true true true false e f g = refl
and_regroup true true true true false f g = refl
and_regroup true true true true true f g = refl

pub regroup :
    (a b c d e f g x : Bool)
    → (a && (b && (c && (d && (e && (f && g))))) || x)
      ≡ ((a && (b && (c && (d && (e && f))))) && g || x)
regroup a b c d e f g x = rw (and_regroup a b c d e f g) refl
