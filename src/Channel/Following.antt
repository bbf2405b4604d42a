-- ===== src/Channel/Following.antt =====
-- `follow` and `unfollow`, and the three lists and the metadata before and after.
use rust_defluencer.Base.{
  ◌≡◌, refl, ◌∙◌, ap, ◌⊎◌, inl, inr, Bool, true, false, not, ◌&&◌, ◌||◌, Option, none, some,
  if◌then◌else◌, Bool-cases, and_then-returned, returned_unique, not_found, already_added, ok, err,
  pure, ◌>>=◌, Ensures, Ensures-bind, Ensures-returned, Post-imp,
}
use rust_defluencer.Base.Key.{Key, same_key}
use rust_defluencer.Base.Sets.{
  set_contains, set_insert, set_remove, set_contains-set_insert, set_contains-set_remove,
}
use rust_defluencer.Ipfs.{
  Ipfs, Grows, Grows-trans, get_or, get_or-Grows, dag_put-Ensures, dag_put, dag_get, dag_get-Grows,
}
use rust_defluencer.LinkedData.Channel.{
  ChannelMetadata, Follows, LiveSettings, no_follows, no_bans, no_moderators, default_settings,
}
use rust_defluencer.Channel.{
  Names, Codecs, put_follows, follow, unfollow, update_metadata, get_mods, get_metadata, get_live,
  get_bans,
}
use rust_defluencer.Channel.Lists.{
  live_settings, is_banned, is_moderator, is_followed, Published, KeepsOthers,
  update_metadata-Ensures,
}

module _ {C S A N P : Type 0} ⦃keys : Key A⦄ ⦃names_order : Key N⦄ (ipfs : Ipfs C S)
    (names : Names C S ipfs) (codecs : Codecs ipfs.Block C A N P) (default_peer : P) where
  abbrev pub Says : N → A → A → Bool → Bool → Bool → S → Type 0
  Says n a b x y z s =
      (is_followed ipfs names codecs default_peer n s ≡ ok x)
      × (is_banned ipfs names codecs default_peer a s ≡ ok y)
      × (is_moderator ipfs names codecs default_peer b s ≡ ok z)

  abbrev FollowPost : N → A → A → Bool → Bool → Bool → S → C → S → Type 0
  FollowPost n a b x y z s cid s' =
      Says n a b x y z s' × KeepsOthers ipfs names codecs default_peer s s'

  -- What is read where only the follow list of the metadata has changed.
  module _ (s s' : S) (r r' : C × ChannelMetadata C)
      (meta : get_metadata ipfs names codecs default_peer s ≡ ok r)
      (meta' : get_metadata ipfs names codecs default_peer s' ≡ ok r') (same : r'.1.live ≡ r.1.live)
      (grows : Grows ipfs s s') where
    live_settings_kept :
        (live : LiveSettings C P)
        → live_settings ipfs names codecs default_peer s ≡ ok live
        → live_settings ipfs names codecs default_peer s' ≡ ok live
    unfolding live_settings get_live
    live_settings_kept live h =
        let (q, eq, loaded) =
          and_then-returned (get_metadata ipfs names codecs default_peer s) _ live h in
        let e : r ≡ q = returned_unique _ r q meta eq in
        rw (meta', same, e)
          (get_or-Grows ipfs codecs.settings (default_settings default_peer) live q.1.live s s'
            grows loaded)

    is_banned_kept :
        (a : A) (y : Bool)
        → is_banned ipfs names codecs default_peer a s ≡ ok y
        → is_banned ipfs names codecs default_peer a s' ≡ ok y
    unfolding is_banned get_bans
    is_banned_kept a y h =
        let (l, el, rest) =
          and_then-returned (live_settings ipfs names codecs default_peer s) _ y h in
        let (b, eb, last) =
          and_then-returned (get_bans ipfs names codecs default_peer l s) _ y rest in
        rw
          (
            live_settings_kept l el,
            get_or-Grows ipfs codecs.ban_list no_bans b l.bans s s' grows eb,
          )
          last

    is_moderator_kept :
        (a : A) (y : Bool)
        → is_moderator ipfs names codecs default_peer a s ≡ ok y
        → is_moderator ipfs names codecs default_peer a s' ≡ ok y
    unfolding is_moderator get_mods
    is_moderator_kept a y h =
        let (l, el, rest) =
          and_then-returned (live_settings ipfs names codecs default_peer s) _ y h in
        let (b, eb, last) =
          and_then-returned (get_mods ipfs names codecs default_peer l s) _ y rest in
        rw
          (
            live_settings_kept l el,
            get_or-Grows ipfs codecs.moderator_list no_moderators b l.mods s s' grows eb,
          )
          last

  module _ (n : N) (a b : A) (x y z : Bool) (s : S)
      (followed_before : is_followed ipfs names codecs default_peer n s ≡ ok x)
      (banned_before : is_banned ipfs names codecs default_peer a s ≡ ok y)
      (mod_before : is_moderator ipfs names codecs default_peer b s ≡ ok z) where
    put_follows-Ensures :
        (r : C × ChannelMetadata C) (new : Follows N)
        → get_metadata ipfs names codecs default_peer s ≡ ok r
        → Ensures
            (FollowPost n a b (set_contains n new.followees) y z s)
            (put_follows ipfs names codecs default_peer r.0 r.1 new s)
    unfolding put_follows is_followed
    put_follows-Ensures r new meta =
        Ensures-bind
          (λ (c : C) (t : S). (dag_get ipfs codecs.follow_list c t ≡ ok new) × Grows ipfs s t)
          (FollowPost n a b (set_contains n new.followees) y z s)
          (dag_put ipfs codecs.follow_list new)
          (λ c.
            update_metadata ipfs names codecs default_peer r.0 (record r.1 { follows = some c })
            >>= λ _. pure c)
          s (dag_put-Ensures ipfs codecs.follow_list new s)
          (λ c _ put.
            let t = (dag_put ipfs codecs.follow_list new s).1 in
            let channel : ChannelMetadata C = record r.1 { follows = some c } in
            Ensures-bind (λ root s'. Published ipfs names codecs default_peer channel t s')
              (FollowPost n a b (set_contains n new.followees) y z s)
              (update_metadata ipfs names codecs default_peer r.0 channel) (λ _. pure c) t
              (update_metadata-Ensures ipfs names codecs default_peer r.0 channel t)
              (λ root _ p.
                let s' = (update_metadata ipfs names codecs default_peer r.0 channel t).1 in
                let grows = Grows-trans ipfs s t s' put.1 p.1 in
                (
                  (
                    rw (p.0.1, dag_get-Grows ipfs codecs.follow_list c t s' new p.1 put.0) refl,
                    is_banned_kept s s' r (p.0.0, channel) meta p.0.1 refl grows a y banned_before,
                    is_moderator_kept s s' r (p.0.0, channel) meta p.0.1 refl grows b z mod_before,
                  ),
                  (r, (p.0.0, channel), some c, meta, p.0.1, refl, grows),
                )))

  get_or-cases :
      (o : Option C) (s : S) (f : Follows N)
      → get_or ipfs codecs.follow_list (ok no_follows) o s ≡ ok f
      → (get_or ipfs codecs.follow_list (err not_found) o s ≡ ok f)
        ⊎ ((get_or ipfs codecs.follow_list (err not_found) o s ≡ err not_found) × (no_follows ≡ f))
  get_or-cases none s f h = inr (refl, cc)
  get_or-cases (some c) s f h = inl h

  loads_of_is_followed :
      (n : N) (x : Bool) (s : S)
      → is_followed ipfs names codecs default_peer n s ≡ ok x
      → (r : C × ChannelMetadata C) × (f : Follows N) × (get_metadata ipfs names codecs default_peer
            s
          ≡ ok r)
        × (get_or ipfs codecs.follow_list (ok no_follows) r.1.follows s ≡ ok f)
        × (set_contains n f.followees ≡ x)
  unfolding is_followed
  loads_of_is_followed n x s h =
      let (r, er, rest) = and_then-returned (get_metadata ipfs names codecs default_peer s) _ x h in
      let (f, ef, last) =
        and_then-returned (get_or ipfs codecs.follow_list (ok no_follows) r.1.follows s) _ x rest in
      (r, f, er, ef, cc)

  -- Where the three lists can be read and `follow` returns,
  -- the channel is followed, and of every other one the follow list says
  -- what it said; so do the ban list and the moderators. The metadata differ in the
  -- link to the follow list at most, and no block is lost.
  pub follow_lem :
      (addr n : N) (a b : A) (x y z : Bool) (s : S) (cid : C) (s' : S)
      → is_followed ipfs names codecs default_peer n s ≡ ok x
      → is_banned ipfs names codecs default_peer a s ≡ ok y
      → is_moderator ipfs names codecs default_peer b s ≡ ok z
      → follow ipfs names codecs default_peer addr s ≡ (ok cid, s')
      → Says n a b (same_key n addr || x) y z s' × KeepsOthers ipfs names codecs default_peer s s'
  unfolding follow
  follow_lem addr n a b x y z s cid s' hx hy hz run =
      Ensures-returned (FollowPost n a b (same_key n addr || x) y z s)
        (follow ipfs names codecs default_peer addr s) cid s' follow-ensures run
    where
      follow-ensures :
          Ensures
            (FollowPost n a b (same_key n addr || x) y z s)
            (follow ipfs names codecs default_peer addr s)
      follow-ensures =
          let (r, f, er, ef, ex) = loads_of_is_followed n x s hx in
          rw (er, ef)
            (elim (Bool-cases (set_contains addr f.followees)) [
              | inl t ↦ rw t tt
              | inr g ↦ rw g (
                  Post-imp (FollowPost n a b (set_contains n (set_insert addr f.followees)) y z s)
                    (FollowPost n a b (same_key n addr || x) y z s) _ _
                    (λ c _ p. (
                      (
                        p.0.0
                            ∙ ap ok (
                                set_contains-set_insert n addr f.followees
                                ∙ ap (λ v. same_key n addr || v) ex),
                        p.0.1,
                        p.0.2,
                      ),
                      p.1,
                    ))
                    (put_follows-Ensures n a b x y z s hx hy hz r
                      (record { followees = set_insert addr f.followees }) er))
            ])

  -- Where the three lists can be read and `unfollow` returns,
  -- the channel is not followed, and of every other one the follow list
  -- says what it said; so do the ban list and the moderators. The metadata differ in the link to the follow list at
  -- most, and no block is lost.
  pub unfollow_lem :
      (addr n : N) (a b : A) (x y z : Bool) (s : S) (cid : C) (s' : S)
      → is_followed ipfs names codecs default_peer n s ≡ ok x
      → is_banned ipfs names codecs default_peer a s ≡ ok y
      → is_moderator ipfs names codecs default_peer b s ≡ ok z
      → unfollow ipfs names codecs default_peer addr s ≡ (ok cid, s')
      → Says n a b (not (same_key n addr) && x) y z s'
        × KeepsOthers ipfs names codecs default_peer s s'
  unfolding unfollow
  unfollow_lem addr n a b x y z s cid s' hx hy hz run =
      Ensures-returned (FollowPost n a b (not (same_key n addr) && x) y z s)
        (unfollow ipfs names codecs default_peer addr s) cid s' unfollow-ensures run
    where
      unfollow-ensures :
          Ensures
            (FollowPost n a b (not (same_key n addr) && x) y z s)
            (unfollow ipfs names codecs default_peer addr s)
      unfollow-ensures =
          let (r, f, er, ef, ex) = loads_of_is_followed n x s hx in
          rw er (elim (get_or-cases r.1.follows s f ef) [
            | inr (gone, _) ↦ rw gone tt
            | inl there ↦ rw there (elim (Bool-cases (set_contains addr f.followees)) [
              | inr g ↦ rw g tt
              | inl t ↦ rw t (
                  Post-imp (FollowPost n a b (set_contains n (set_remove addr f.followees)) y z s)
                    (FollowPost n a b (not (same_key n addr) && x) y z s) _ _
                    (λ c _ p. (
                      (
                        p.0.0
                            ∙ ap ok (
                                set_contains-set_remove n addr f.followees
                                ∙ ap (λ v. not (same_key n addr) && v) ex),
                        p.0.1,
                        p.0.2,
                      ),
                      p.1,
                    ))
                    (put_follows-Ensures n a b x y z s hx hy hz r
                      (record { followees = set_remove addr f.followees }) er))
            ])
          ])

  -- Where the follow list can be read, following a channel that is followed already is refused, and changes nothing; so is unfollowing
  -- one that is not followed.
  pub follow-refused :
      (addr : N) (x : Bool) (s : S)
      → is_followed ipfs names codecs default_peer addr s ≡ ok x
      → (if x
          then follow ipfs names codecs default_peer addr s
          else unfollow ipfs names codecs default_peer addr s)
        ≡ (if x then (err already_added, s) else (err not_found, s))
  unfolding follow unfollow set_contains
  follow-refused addr true s h =
      let (r, f, er, ef, ex) = loads_of_is_followed addr true s h in rw (er, ef, ex) refl
  follow-refused addr false s h =
      let (r, f, er, ef, ex) = loads_of_is_followed addr false s h in
      rw er (elim (get_or-cases r.1.follows s f ef) [
        | inr (gone, _) ↦ rw gone refl
        | inl there ↦ rw (there, ex) refl
      ])
