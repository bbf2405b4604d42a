-- ===== src/Channel/Media/Contents.antt =====
-- What the channel holds: `add_content` and `remove_content` against its chronological index.
use rust_defluencer.Base.{
  ◌≡◌, refl, sym, ap, ◌∙◌, Bool, true, false, not, ◌&&◌, ◌||◌, Option, none, some, and_then,
  and_then-returned, Result, ok, pure, ◌>>=◌, Ensures, Ensures-bind, Ensures-returned,
  Ensures-intro,
}
use rust_defluencer.Base.Key.{Key, same_key}
use rust_defluencer.Ipfs.{Ipfs, Grows, Grows-refl, Grows-trans}
use rust_defluencer.LinkedData.Channel.{ChannelMetadata}
use rust_defluencer.LinkedData.Hamt.{Digest}
use rust_defluencer.Channel.{Names, Codecs, get_metadata, update_metadata}
use rust_defluencer.Channel.Lists.{Published, update_metadata-Ensures}
use rust_defluencer.Channel.Media.{
  Media, IndexCodecs, datetime_of, add_content, without_comments, end_removal, remove_content,
}
use rust_defluencer.DateTime.{DateTime, path_of}
use rust_defluencer.DateTime.Paths.{same_time}
use rust_defluencer.DateTime.Contents.{contains, contains_in-Grows}
use rust_defluencer.DateTime.Removal.{contains-remove}
use rust_defluencer.Hamt.Growth.{remove-Growing}
use rust_defluencer.Ipfs.Growing.{Growing}
use rust_defluencer.DateTime.Insert.{After, insert-Ensures}

module _ {C S A N P I K : Type 0} ⦃keys : Key A⦄ ⦃names_order : Key N⦄ ⦃links : Key C⦄
    ⦃numbers : Key K⦄ (ipfs : Ipfs C S) (names : Names C S ipfs)
    (codecs : Codecs ipfs.Block C A N P) (default_peer : P) (media : Media C S I K)
    (indexes : IndexCodecs ipfs.Block K C) (digest : C → Result Digest) where
  -- Whether the channel has a content at a date and time.
  unfoldable pub has_content : DateTime K → C → S → Result Bool
  has_content e a s =
      and_then (get_metadata ipfs names codecs default_peer s)
        (λ r. contains ipfs indexes.levels e a r.1.content_index s)

  has_content_of :
      (e : DateTime K) (a : C) (s : S) (root : C) (channel : ChannelMetadata C)
      → get_metadata ipfs names codecs default_peer s ≡ ok (root, channel)
      → has_content e a s ≡ contains ipfs indexes.levels e a channel.content_index s
  unfolding has_content
  has_content_of e a s root channel h = rw h refl

  module _ (content : C) (d e : DateTime K) (a : C) (x : Bool) (s : S) where
    abbrev Added : C → S → Type 0
    Added c s' =
        (has_content e a s' ≡ ok (same_time e d && same_key a content || x)) × (c ≡ content)

    add_content-Ensures :
        datetime_of ipfs names codecs default_peer media indexes digest content s ≡ ok d
        → has_content e a s ≡ ok x
        → Ensures Added (add_content ipfs names codecs default_peer media indexes digest content s)
    unfolding add_content has_content contains
    add_content-Ensures at before =
        let (r, meta, held) =
          and_then-returned (get_metadata ipfs names codecs default_peer s) _ x before in
        rw (at, meta)
          (Ensures-bind (After ipfs indexes.levels d e r.1.content_index content a x) Added
            (rust_defluencer.DateTime.insert ipfs indexes.levels d r.1.content_index content)
            (λ i.
              update_metadata ipfs names codecs default_peer r.0
                (record r.1 { content_index = i.1 })
              >>= λ _. pure content)
            s (insert-Ensures ipfs indexes.levels d e r.1.content_index content a x s held)
            (λ i _ now.
              let t =
                (rust_defluencer.DateTime.insert ipfs indexes.levels d r.1.content_index content
                  s).1 in
              let channel : ChannelMetadata C = record r.1 { content_index = i.1 } in
              Ensures-bind (λ root s'. Published ipfs names codecs default_peer channel t s') Added
                (update_metadata ipfs names codecs default_peer r.0 channel) (λ _. pure content) t
                (update_metadata-Ensures ipfs names codecs default_peer r.0 channel t)
                (λ root _ p. (
                  has_content_of e a _ p.0.0 channel p.0.1
                      ∙ contains_in-Grows ipfs indexes.levels (path_of indexes.levels e) e.second a
                          i.1 _ t _ p.1 now,
                  refl,
                ))))

  -- Where the content can be read and `add_content` returns, it returns the content. The channel then has
  -- it at its date and time, and of any content at any time says otherwise what it said.
  pub add_content_lem :
      (content : C) (d e : DateTime K) (a : C) (x : Bool) (s s' : S) (c : C)
      → datetime_of ipfs names codecs default_peer media indexes digest content s ≡ ok d
      → has_content e a s ≡ ok x
      → add_content ipfs names codecs default_peer media indexes digest content s ≡ (ok c, s')
      → (has_content e a s' ≡ ok (same_time e d && same_key a content || x)) × (c ≡ content)
  add_content_lem content d e a x s s' c at before run =
      Ensures-returned (Added content d e a x s)
        (add_content ipfs names codecs default_peer media indexes digest content s) c s'
        (add_content-Ensures content d e a x s at before) run

  without_comments-Growing :
      (content : C) (o : Option C)
      → Growing ipfs
          (without_comments ipfs names codecs default_peer media indexes digest content o)
  unfolding without_comments
  without_comments-Growing content none = λ s. Grows-refl ipfs s
  without_comments-Growing content (some index) = λ s.
      Ensures-bind (λ (r : Option C × C) t. Grows ipfs s t) (λ (r : Option C) t. Grows ipfs s t)
        (rust_defluencer.Hamt.remove ipfs indexes.nodes indexes.roots digest index content)
        (λ r. pure (some r.1)) s
        (remove-Growing ipfs indexes.nodes indexes.roots digest index content s) (λ r _ g. g)

  module _ (content : C) (d e : DateTime K) (a : C) (x y : Bool) (s : S) where
    abbrev pub Gone : Option C → S → Type 0
    Gone none s' = y ≡ false
    Gone (some c) s' =
        (has_content e a s' ≡ ok (not (same_time e d && same_key a content) && x))
        × (y ≡ true)
        × (c ≡ content)

    -- What the index says after the removal from it.
    abbrev Left : Bool × Option C → S → Type 0
    Left i t =
        (contains ipfs indexes.levels e a i.1 t
          ≡ ok (not (same_time e d && same_key a content) && x))
        × (i.0 ≡ y)

    remove-Left :
        (index : Option C)
        → contains ipfs indexes.levels e a index s ≡ ok x
        → contains ipfs indexes.levels d content index s ≡ ok y
        → Ensures Left (rust_defluencer.DateTime.remove ipfs indexes.levels d index content s)
    remove-Left index held was =
        let run = rust_defluencer.DateTime.remove ipfs indexes.levels d index content s in
        Ensures-intro Left run (λ i ran.
          contains-remove ipfs indexes.levels d e index content a x y s i.0 i.1 run.1 held was
            (ap (λ u. (u, run.1)) ran))

    end_removal-Ensures :
        (r : C × ChannelMetadata C) (i : Bool × Option C) (t : S)
        → Left i t
        → Ensures Gone
            (end_removal ipfs names codecs default_peer media indexes digest content r i t)
    unfolding end_removal contains
    end_removal-Ensures r (false, index) t left = sym left.1
    end_removal-Ensures r (true, index) t left =
        Ensures-bind (λ (o : Option C) u. Grows ipfs t u) Gone
          (without_comments ipfs names codecs default_peer media indexes digest content
            r.1.comment_index)
          (λ comments.
            update_metadata ipfs names codecs default_peer r.0
              (record r.1 { content_index = index; comment_index = comments })
            >>= λ _. pure (some content))
          t (without_comments-Growing content r.1.comment_index t)
          (λ comments _ g.
            let u =
              (without_comments ipfs names codecs default_peer media indexes digest content
                r.1.comment_index t).1 in
            let channel : ChannelMetadata C = record r.1 {
              content_index = index;
              comment_index = comments;
            } in
            Ensures-bind (λ root s'. Published ipfs names codecs default_peer channel u s') Gone
              (update_metadata ipfs names codecs default_peer r.0 channel)
              (λ _. pure (some content)) u
              (update_metadata-Ensures ipfs names codecs default_peer r.0 channel u)
              (λ root _ p. (
                has_content_of e a _ p.0.0 channel p.0.1
                    ∙ contains_in-Grows ipfs indexes.levels (path_of indexes.levels e) e.second a
                        index _ t _ (Grows-trans ipfs t u _ g p.1) left.0,
                sym left.1,
                refl,
              )))

    remove_content-Ensures :
        datetime_of ipfs names codecs default_peer media indexes digest content s ≡ ok d
        → has_content e a s ≡ ok x
        → has_content d content s ≡ ok y
        → Ensures Gone
            (remove_content ipfs names codecs default_peer media indexes digest content s)
    unfolding remove_content has_content
    remove_content-Ensures at before was =
        let (r, meta, held) =
          and_then-returned (get_metadata ipfs names codecs default_peer s) _ x before in
        let here = sym (has_content_of d content s r.0 r.1 meta) ∙ was in
        rw (at, meta)
          (Ensures-bind Left Gone
            (rust_defluencer.DateTime.remove ipfs indexes.levels d r.1.content_index content)
            (λ i. end_removal ipfs names codecs default_peer media indexes digest content r i) s
            (remove-Left r.1.content_index held here) (λ i _ left. end_removal-Ensures r i _ left))

  -- Where the content can be read and `remove_content` returns, it returns the content exactly if the
  -- channel had it at its date and time. Where it returns it, the channel does not have it there any more, and of
  -- any content at any other time says what it said.
  pub remove_content_lem :
      (content : C) (d e : DateTime K) (a : C) (x y : Bool) (s s' : S) (o : Option C)
      → datetime_of ipfs names codecs default_peer media indexes digest content s ≡ ok d
      → has_content e a s ≡ ok x
      → has_content d content s ≡ ok y
      → remove_content ipfs names codecs default_peer media indexes digest content s ≡ (ok o, s')
      → Gone content d e a x y s o s'
  remove_content_lem content d e a x y s s' o at before was run =
      Ensures-returned (Gone content d e a x y s)
        (remove_content ipfs names codecs default_peer media indexes digest content s) o s'
        (remove_content-Ensures content d e a x y s at before was) run
