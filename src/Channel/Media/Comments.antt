-- ===== src/Channel/Media/Comments.antt =====
-- The comments on a content: what `add_comment` does to the trie of them.
use rust_defluencer.Base.{
  ◌≡◌, refl, ◌∙◌, Option, none, some, and_then, and_then-returned, length, Result, ok, pure, ◌>>=◌,
  Ensures, Ensures-bind, Ensures-returned, Post-and, Post-imp, arith,
}
use rust_defluencer.Base.Key.{Key}
use rust_defluencer.Ipfs.{
  Ipfs, Grows, Grows-refl, Grows-trans, dag_get, dag_get-Grows, dag_put-Ensures,
}
use rust_defluencer.LinkedData.Channel.{ChannelMetadata}
use rust_defluencer.LinkedData.Hamt.{Digest, empty_root}
use rust_defluencer.Channel.{Names, Codecs, get_metadata, update_metadata}
use rust_defluencer.Channel.Lists.{Published, update_metadata-Ensures}
use rust_defluencer.Channel.Media.{
  Media, IndexCodecs, media_of, or_new, add_to_comments, add_comment,
}
use rust_defluencer.Hamt.{levels, find, get}
use rust_defluencer.Hamt.Buckets.{upd, kept, eq_key_refl}
use rust_defluencer.Hamt.Find.{Grows-find}
use rust_defluencer.Hamt.Reads.{find-empty_node}
use rust_defluencer.Hamt.Index.{get_root, find_of_get, insert-Ensures}
use rust_defluencer.Hamt.Growth.{insert-Growing}

module _ {C S A N P I K : Type 0} ⦃keys : Key A⦄ ⦃names_order : Key N⦄ ⦃links : Key C⦄
    ⦃numbers : Key K⦄ (ipfs : Ipfs C S) (names : Names C S ipfs)
    (codecs : Codecs ipfs.Block C A N P) (default_peer : P) (media : Media C S I K)
    (indexes : IndexCodecs ipfs.Block K C) (digest : C → Result Digest)
    (digest_length : (k : C) (d : Digest) → digest k ≡ ok d → length d ≡ 32) where
  abbrev look : C → C → S → Result (Option C)
  look index j s = get ipfs indexes.nodes indexes.roots digest index j s

  look-Grows :
      (index j : C) (d : Digest) (r : Option C) (s s' : S)
      → digest j ≡ ok d
      → Grows ipfs s s'
      → look index j s ≡ ok r
      → look index j s' ≡ ok r
  look-Grows index j d r s s' e g h =
      let (root, load, found) =
        find_of_get ipfs indexes.nodes indexes.roots digest index j s d e h in
      get_root ipfs indexes.nodes indexes.roots digest index j s' root d e
        (dag_get-Grows ipfs indexes.roots index s s' root g load)
      ∙ Grows-find ipfs indexes.nodes levels d 0 root.hamt s s' g r found

  -- The trie of the comments on a content, where there is one.
  abbrev comments_at : ChannelMetadata C → C → S → Result (Option C)
  comments_at channel m s = elim channel.comment_index [
    | none ↦ ok none
    | some index ↦ look index m s
  ]

  unfoldable pub comments_of : C → S → Result (Option C)
  comments_of m s =
      and_then (get_metadata ipfs names codecs default_peer s) (λ r. comments_at r.1 m s)

  -- An insertion, at its own key.
  insert_here :
      (index key value : C) (d : Digest) (r : Option C) (s : S)
      → digest key ≡ ok d
      → look index key s ≡ ok r
      → Ensures
          (λ (i : C) t. Grows ipfs s t × (look i key t ≡ ok (kept value r)))
          (rust_defluencer.Hamt.insert ipfs indexes.nodes indexes.roots digest index key value s)
  insert_here index key value d r s e h =
      let run =
        rust_defluencer.Hamt.insert ipfs indexes.nodes indexes.roots digest index key value s in
      Post-and (λ (i : C) t. Grows ipfs s t) (λ (i : C) t. look i key t ≡ ok (kept value r)) run.0
        run.1 (insert-Growing ipfs indexes.nodes indexes.roots digest index key value s)
        (Post-imp (λ (i : C) t. look i key t ≡ ok (upd d value d r))
          (λ (i : C) t. look i key t ≡ ok (kept value r)) _ _ (λ i _ q. q ∙ rw (eq_key_refl d) refl)
          (insert-Ensures ipfs indexes.nodes indexes.roots digest digest_length index key value s
            key d d r e e h))

  find-empty_root :
      (d : Digest) (s : S)
      → length d ≡ 32
      → find ipfs indexes.nodes levels d 0 empty_root.hamt s ≡ ok none
  unfolding empty_root
  find-empty_root d s h =
      find-empty_node ipfs indexes.nodes levels d 0 s (omega arith) (omega arith) h

  -- A new trie has nothing, and another one has what it has.
  or_new-Ensures :
      (o : Option C) (j : C) (d : Digest) (r : Option C) (s : S)
      → digest j ≡ ok d
      → (elim o as (λ o. Result (Option C)) [ none ↦ ok none | some index ↦ look index j s ]) ≡ ok r
      → Ensures
          (λ (i : C) t. Grows ipfs s t × (look i j t ≡ ok r))
          (or_new ipfs names codecs default_peer media indexes digest o s)
  unfolding or_new
  or_new-Ensures none j d r s e h =
      Post-imp (λ (i : C) t. (dag_get ipfs indexes.roots i t ≡ ok empty_root) × Grows ipfs s t)
        (λ (i : C) t. Grows ipfs s t × (look i j t ≡ ok r)) _ _
        (λ i _ put. (
          put.1,
          get_root ipfs indexes.nodes indexes.roots digest i j _ empty_root d e put.0
              ∙ find-empty_root d _ (digest_length j d e)
              ∙ h,
        ))
        (dag_put-Ensures ipfs indexes.roots empty_root s)
  or_new-Ensures (some index) j d r s e h = (Grows-refl ipfs s, h)

  -- What is read afterwards, by what was there before.
  abbrev pub Commented : C → C → Option C → S → Type 0
  Commented comment m none s' =
      (comments : C) × (comments_of m s' ≡ ok (some comments))
      × (look comments comment s' ≡ ok (some comment))
  Commented comment m (some before) s' = comments_of m s' ≡ ok (some before)

  module _ (comment m : C) (dc dm : Digest) (ec : digest comment ≡ ok dc)
      (em : digest m ≡ ok dm) where
    -- The end of `add_comment`: the new index of comments is published.
    published :
        (root : C) (channel : ChannelMetadata C) (index : C) (found : Option C) (s : S)
        → look index m s ≡ ok found
        → Ensures
            (λ (o : Option C) s'. Grows ipfs s s' × (comments_of m s' ≡ ok found))
            ((update_metadata ipfs names codecs default_peer root
                  (record channel { comment_index = some index })
                >>= λ _. pure (some comment))
              s)
    unfolding comments_of
    published root channel index found s h =
        let channel' : ChannelMetadata C = record channel { comment_index = some index } in
        Ensures-bind (λ root s'. Published ipfs names codecs default_peer channel' s s')
          (λ (o : Option C) s'. Grows ipfs s s' × (comments_of m s' ≡ ok found))
          (update_metadata ipfs names codecs default_peer root channel') (λ _. pure (some comment))
          s (update_metadata-Ensures ipfs names codecs default_peer root channel' s)
          (λ _ _ p. (p.1, rw p.0.1 (look-Grows index m dm found s _ em p.1 h)))

    -- What the last insertion does, and the publication.
    link_comments :
        (root : C) (channel : ChannelMetadata C) (index comments : C) (found : Option C) (s : S)
        → look index m s ≡ ok found
        → Ensures
            (λ (o : Option C) s'. Grows ipfs s s' × (comments_of m s' ≡ ok (kept comments found)))
            ((rust_defluencer.Hamt.insert ipfs indexes.nodes indexes.roots digest index m comments
                >>= λ index'.
                    update_metadata ipfs names codecs default_peer root
                      (record channel { comment_index = some index' })
                    >>= λ _. pure (some comment))
              s)
    link_comments root channel index comments found s h =
        Ensures-bind (λ (i : C) t. Grows ipfs s t × (look i m t ≡ ok (kept comments found)))
          (λ (o : Option C) s'. Grows ipfs s s' × (comments_of m s' ≡ ok (kept comments found)))
          (rust_defluencer.Hamt.insert ipfs indexes.nodes indexes.roots digest index m comments)
          (λ index'.
            update_metadata ipfs names codecs default_peer root
              (record channel { comment_index = some index' })
            >>= λ _. pure (some comment))
          s (insert_here index m comments dm found s em h)
          (λ i _ p.
            let t =
              (rust_defluencer.Hamt.insert ipfs indexes.nodes indexes.roots digest index m comments
                s).1 in
            Post-imp
              (λ (o : Option C) s'. Grows ipfs t s' × (comments_of m s' ≡ ok (kept comments found)))
              (λ (o : Option C) s'. Grows ipfs s s' × (comments_of m s' ≡ ok (kept comments found)))
              _ _ (λ o _ q. (Grows-trans ipfs s t _ p.0 q.0, q.1))
              (published root channel i (kept comments found) t p.1))

    add_to_comments-Ensures :
        (r : C × ChannelMetadata C) (index : C) (found : Option C) (s : S)
        → look index m s ≡ ok found
        → Ensures
            (λ (o : Option C) s'. Commented comment m found s')
            (add_to_comments ipfs names codecs default_peer media indexes digest comment m r index
              found s)
    unfolding add_to_comments
    add_to_comments-Ensures r index none s h =
        Ensures-bind (λ (i : C) t. Grows ipfs s t × (look i comment t ≡ ok none))
          (λ (o : Option C) s'. Commented comment m none s')
          (or_new ipfs names codecs default_peer media indexes digest none) _ s
          (or_new-Ensures none comment dc none s ec refl)
          (λ comments _ p.
            let t = (or_new ipfs names codecs default_peer media indexes digest none s).1 in
            Ensures-bind (λ (i : C) u. Grows ipfs t u × (look i comment u ≡ ok (some comment)))
              (λ (o : Option C) s'. Commented comment m none s')
              (rust_defluencer.Hamt.insert ipfs indexes.nodes indexes.roots digest comments comment
                comment)
              _ t (insert_here comments comment comment dc none t ec p.1)
              (λ comments' _ q.
                let u =
                  (rust_defluencer.Hamt.insert ipfs indexes.nodes indexes.roots digest comments
                    comment comment t).1 in
                Post-imp
                  (λ (o : Option C) s'. Grows ipfs u s' × (comments_of m s' ≡ ok (some comments')))
                  (λ (o : Option C) s'. Commented comment m none s') _ _
                  (λ o _ l.
                    (comments', l.1, look-Grows comments' comment dc (some comment) u _ ec l.0 q.1))
                  (link_comments r.0 r.1 index comments' none u
                    (look-Grows index m dm none s u em (Grows-trans ipfs s t u p.0 q.0) h))))
    add_to_comments-Ensures r index (some before) s h =
        unfold or_new in
        Ensures-bind (λ (i : C) t. Grows ipfs s t)
          (λ (o : Option C) s'. Commented comment m (some before) s')
          (rust_defluencer.Hamt.insert ipfs indexes.nodes indexes.roots digest before comment
            comment)
          _ s (insert-Growing ipfs indexes.nodes indexes.roots digest before comment comment s)
          (λ comments' _ g.
            let t =
              (rust_defluencer.Hamt.insert ipfs indexes.nodes indexes.roots digest before comment
                comment s).1 in
            Post-imp (λ (o : Option C) s'. Grows ipfs t s' × (comments_of m s' ≡ ok (some before)))
              (λ (o : Option C) s'. Commented comment m (some before) s') _ _ (λ o _ l. l.1)
              (link_comments r.0 r.1 index comments' (some before) t
                (look-Grows index m dm (some before) s t em g h)))

    add_comment-Ensures :
        (found : Option C) (s : S)
        → media_of ipfs names codecs default_peer media indexes digest comment s ≡ ok m
        → comments_of m s ≡ ok found
        → Ensures
            (λ (o : Option C) s'. Commented comment m found s')
            (add_comment ipfs names codecs default_peer media indexes digest comment s)
    unfolding add_comment comments_of
    add_comment-Ensures found s on before =
        let (r, meta, held) =
          and_then-returned (get_metadata ipfs names codecs default_peer s) _ found before in
        rw (on, meta)
          (Ensures-bind (λ (i : C) t. Grows ipfs s t × (look i m t ≡ ok found))
            (λ (o : Option C) s'. Commented comment m found s')
            (or_new ipfs names codecs default_peer media indexes digest r.1.comment_index) _ s
            (or_new-Ensures r.1.comment_index m dm found s em held)
            (λ index _ p. rw p.1 (add_to_comments-Ensures r index found _ p.1)))

  -- Where the comment can be read and `add_comment` returns: the first comment on a content is in
  -- the new trie of its comments; the trie of a content that has one stays the one that it was.
  pub add_comment_lem :
      (comment m : C) (dc dm : Digest) (found : Option C) (s s' : S) (o : Option C)
      → digest comment ≡ ok dc
      → digest m ≡ ok dm
      → media_of ipfs names codecs default_peer media indexes digest comment s ≡ ok m
      → comments_of m s ≡ ok found
      → add_comment ipfs names codecs default_peer media indexes digest comment s ≡ (ok o, s')
      → Commented comment m found s'
  add_comment_lem comment m dc dm found s s' o ec em on before run =
      Ensures-returned (λ (o : Option C) s'. Commented comment m found s')
        (add_comment ipfs names codecs default_peer media indexes digest comment s) o s'
        (add_comment-Ensures comment m dc dm ec em found s on before) run
