-- ===== src/Channel/Lists.antt =====
-- Who is followed, banned and a moderator, as the blocks of a channel say, and what the operations
-- change about it.
use rust_defluencer.Base.{
  ◌≡◌, refl, sym, ap, ◌∙◌, Option, Bool, some, and_then, and_then-returned, returned_unique, Result,
  ok, pure, ◌>>=◌, Ensures, Ensures-bind, Ensures-intro, Post-imp,
}
use rust_defluencer.Base.Key.{Key}
use rust_defluencer.Base.Sets.{set_contains}
use rust_defluencer.Ipfs.{
  Ipfs, Grows, Grows-refl, Grows-trans, get_or, get_or-Grows, dag_put-Ensures, dag_put, dag_get,
  dag_get-Grows,
}
use rust_defluencer.LinkedData.Channel.{
  ChannelMetadata, LiveSettings, no_follows, no_bans, no_moderators,
}
use rust_defluencer.Channel.{
  Names, Codecs, get_metadata, update_metadata, get_live, get_bans, get_mods, put_live,
}

module _ {C S A N P : Type 0} ⦃keys : Key A⦄ ⦃names_order : Key N⦄ (ipfs : Ipfs C S)
    (names : Names C S ipfs) (codecs : Codecs ipfs.Block C A N P) (default_peer : P) where
  unfoldable pub live_settings : S → Result (LiveSettings C P)
  live_settings s =
      and_then (get_metadata ipfs names codecs default_peer s)
        (λ r. get_live ipfs names codecs default_peer r.1 s)

  unfoldable pub is_banned : A → S → Result Bool
  is_banned a s = and_then (live_settings s) (λ live.
      and_then (get_bans ipfs names codecs default_peer live s)
        (λ bans. ok (set_contains a bans.banned_addrs)))

  unfoldable pub is_moderator : A → S → Result Bool
  is_moderator a s = and_then (live_settings s) (λ live.
      and_then (get_mods ipfs names codecs default_peer live s)
        (λ mods. ok (set_contains a mods.moderator_addrs)))

  unfoldable pub is_followed : N → S → Result Bool
  is_followed n s = and_then (get_metadata ipfs names codecs default_peer s) (λ r.
      and_then (get_or ipfs codecs.follow_list (ok no_follows) r.1.follows s)
        (λ follows. ok (set_contains n follows.followees)))

  abbrev pub Published : ChannelMetadata C → S → S → Type 0
  Published channel s s' =
      ((root : C) × (get_metadata ipfs names codecs default_peer s' ≡ ok (root, channel)))
      × Grows ipfs s s'

  pub update_metadata-Ensures :
      (old_cid : C) (channel : ChannelMetadata C) (s : S)
      → Ensures
          (λ root s'. Published channel s s')
          (update_metadata ipfs names codecs default_peer old_cid channel s)
  unfolding update_metadata get_metadata
  update_metadata-Ensures old_cid channel s =
      Ensures-bind
        (λ (c : C) (t : S). (dag_get ipfs codecs.metadata c t ≡ ok channel) × Grows ipfs s t)
        (λ root s'. Published channel s s') (dag_put ipfs codecs.metadata channel)
        (λ root. names.pin_update old_cid root >>= λ _. names.update root >>= λ _. pure root) s
        (dag_put-Ensures ipfs codecs.metadata channel s)
        (λ root _ put.
          let t = (dag_put ipfs codecs.metadata channel s).1 in
          let u = (names.pin_update old_cid root t).1 in
          let v = (names.update root u).1 in
          let later =
            Grows-trans ipfs t u v (names.pin_keeps old_cid root t) (names.update_keeps root u) in
          Ensures-bind (λ (x : Unit {0}) (t' : S). t' ≡ u) (λ root s'. Published channel s s')
            (names.pin_update old_cid root) (λ _. names.update root >>= λ _. pure root) t
            (Ensures-intro (λ (x : Unit {0}) (t' : S). t' ≡ u) (names.pin_update old_cid root t)
              (λ x e. refl))
            (λ x _ _.
              Ensures-bind (λ (y : Unit {0}) (t' : S). names.name_resolve v ≡ ok root)
                (λ root s'. Published channel s s') (names.update root) (λ _. pure root) u
                (Ensures-intro (λ (y : Unit {0}) (t' : S). names.name_resolve v ≡ ok root)
                  (names.update root u) (λ y e. names.resolve-update root u e))
                (λ y _ named. (
                  (
                    root,
                    rw (named, dag_get-Grows ipfs codecs.metadata root t v channel later put.0)
                        refl,
                  ),
                  Grows-trans ipfs s t v put.1 later,
                ))))

  abbrev pub LiveSaved : LiveSettings C P → ChannelMetadata C → S → S → Type 0
  LiveSaved live channel s s' =
      ((live_cid : C) × (root : C) × (get_metadata ipfs names codecs default_peer s'
          ≡ ok (root, record channel { live = some live_cid }))
        × (dag_get ipfs codecs.settings live_cid s' ≡ ok live))
      × Grows ipfs s s'

  pub put_live-Ensures :
      (root_cid : C) (channel : ChannelMetadata C) (live : LiveSettings C P) (s : S)
      → Ensures
          (λ root s'. LiveSaved live channel s s')
          (put_live ipfs names codecs default_peer root_cid channel live s)
  unfolding put_live
  put_live-Ensures root_cid channel live s =
      Ensures-bind
        (λ (c : C) (t : S). (dag_get ipfs codecs.settings c t ≡ ok live) × Grows ipfs s t)
        (λ root s'. LiveSaved live channel s s') (dag_put ipfs codecs.settings live)
        (λ c.
          update_metadata ipfs names codecs default_peer root_cid
            (record channel { live = some c }))
        s (dag_put-Ensures ipfs codecs.settings live s)
        (λ c _ put.
          let t = (dag_put ipfs codecs.settings live s).1 in
          let run =
            update_metadata ipfs names codecs default_peer root_cid
              (record channel { live = some c }) t in
          Post-imp (λ root s'. Published (record channel { live = some c }) t s')
            (λ root s'. LiveSaved live channel s s') run.0 run.1
            (λ root _ p. (
              (c, p.0.0, p.0.1, dag_get-Grows ipfs codecs.settings c t run.1 live p.1 put.0),
              Grows-trans ipfs s t run.1 put.1 p.1,
            ))
            (update_metadata-Ensures root_cid (record channel { live = some c }) t))

  -- The metadata differ in the link to the live settings at most, the live settings in the field that
  -- `change` sets, and every block is still there.
  abbrev pub KeepsRest : (Option C → LiveSettings C P → LiveSettings C P) → S → S → Type 0
  KeepsRest change s s' =
      (r : C × ChannelMetadata C) × (r' : C × ChannelMetadata C) × (live : LiveSettings C P)
      × (link : Option C) × (field : Option C) × (get_metadata ipfs names codecs default_peer s
          ≡ ok r)
      × (get_live ipfs names codecs default_peer r.1 s ≡ ok live)
      × (get_metadata ipfs names codecs default_peer s' ≡ ok r')
      × (r'.1 ≡ record r.1 { live = link })
      × (get_live ipfs names codecs default_peer r'.1 s' ≡ ok (change field live))
      × Grows ipfs s s'

  -- The metadata differ in the link to the follow list at most, and every block is still there.
  abbrev pub KeepsOthers : S → S → Type 0
  KeepsOthers s s' =
      (r : C × ChannelMetadata C) × (r' : C × ChannelMetadata C) × (link : Option C) × (get_metadata
          ipfs names codecs default_peer s
        ≡ ok r)
      × (get_metadata ipfs names codecs default_peer s' ≡ ok r')
      × (r'.1 ≡ record r.1 { follows = link })
      × Grows ipfs s s'

  -- What was loaded before an operation, and what is read after it.
  module _ (s : S) (r : C × ChannelMetadata C) (live : LiveSettings C P)
      (meta : get_metadata ipfs names codecs default_peer s ≡ ok r)
      (loaded : get_live ipfs names codecs default_peer r.1 s ≡ ok live) where
    -- An operation that changes nothing.
    pub KeepsRest-same :
        (change : Option C → LiveSettings C P → LiveSettings C P) (field : Option C)
        → change field live ≡ live
        → KeepsRest change s s
    KeepsRest-same change field e = (
      r,
      r,
      live,
      r.1.live,
      field,
      meta,
      loaded,
      meta,
      refl,
      loaded ∙ ap ok (sym e),
      Grows-refl ipfs s,
    )

    live_settings_before : live_settings s ≡ ok live
    unfolding live_settings
    live_settings_before = rw (meta, loaded) refl

    module _ (live' : LiveSettings C P) (s' : S) (saved : LiveSaved live' r.1 s s') where
      pub KeepsRest-saved :
          (change : Option C → LiveSettings C P → LiveSettings C P) (field : Option C)
          → live' ≡ change field live
          → KeepsRest change s s'
      unfolding get_live
      KeepsRest-saved change field e = (
        r,
        (saved.0.1, record r.1 { live = some saved.0.0 }),
        live,
        some saved.0.0,
        field,
        meta,
        loaded,
        saved.0.2,
        refl,
        saved.0.3 ∙ ap ok e,
        saved.1,
      )

      pub live_settings_after : live_settings s' ≡ ok live'
      unfolding live_settings get_live
      live_settings_after = rw (saved.0.2) (saved.0.3)

      pub is_followed_after : (n : N) (z : Bool) → is_followed n s ≡ ok z → is_followed n s' ≡ ok z
      unfolding is_followed
      is_followed_after n z h =
          let (q, eq, rest) =
            and_then-returned (get_metadata ipfs names codecs default_peer s) _ z h in
          let (f, ef, last) =
            and_then-returned (get_or ipfs codecs.follow_list (ok no_follows) q.1.follows s) _ z
              rest in
          let same : r ≡ q = returned_unique _ r q meta eq in
          rw
            (
              saved.0.2,
              same,
              get_or-Grows ipfs codecs.follow_list no_follows f q.1.follows s s' saved.1 ef,
            )
            last

      pub is_moderator_after :
          (a : A) (y : Bool)
          → live'.mods ≡ live.mods
          → is_moderator a s ≡ ok y
          → is_moderator a s' ≡ ok y
      unfolding is_moderator get_mods
      is_moderator_after a y e h =
          let (l, el, rest) = and_then-returned (live_settings s) _ y h in
          let (b, eb, last) =
            and_then-returned (get_mods ipfs names codecs default_peer l s) _ y rest in
          let same : live ≡ l = returned_unique _ live l live_settings_before el in
          rw
            (
              live_settings_after,
              e,
              same,
              get_or-Grows ipfs codecs.moderator_list no_moderators b l.mods s s' saved.1 eb,
            )
            last

      pub is_banned_after :
          (a : A) (y : Bool) → live'.bans ≡ live.bans → is_banned a s ≡ ok y → is_banned a s' ≡ ok y
      unfolding is_banned get_bans
      is_banned_after a y e h =
          let (l, el, rest) = and_then-returned (live_settings s) _ y h in
          let (b, eb, last) =
            and_then-returned (get_bans ipfs names codecs default_peer l s) _ y rest in
          let same : live ≡ l = returned_unique _ live l live_settings_before el in
          rw
            (
              live_settings_after,
              e,
              same,
              get_or-Grows ipfs codecs.ban_list no_bans b l.bans s s' saved.1 eb,
            )
            last
