-- ===== src/Channel/Moderating.antt =====
-- `add_moderator` and `remove_moderator`, and the three lists and the metadata before and after.
use rust_defluencer.Base.{
  ◌≡◌, refl, sym, ◌∙◌, ap, inl, inr, Bool, false, not, ◌&&◌, ◌||◌, Option, none, some, Bool-cases,
  and_then-returned, ok, pure, ◌>>=◌, Ensures, Ensures-bind, Ensures-returned, Post-imp,
}
use rust_defluencer.Base.Key.{Key, same_key}
use rust_defluencer.Base.Sets.{
  set_contains, set_insert, set_remove, set_contains-set_insert, set_contains-set_remove,
  or_present, and_absent,
}
use rust_defluencer.Ipfs.{
  Ipfs, Grows, Grows-trans, get_or, dag_put-Ensures, dag_put, dag_get, dag_get-Grows,
}
use rust_defluencer.LinkedData.Channel.{
  ChannelMetadata, LiveSettings, Moderators, no_moderators, no_moderators,
}
use rust_defluencer.Channel.{
  Names, Codecs, get_metadata, get_live, get_mods, put_live, add_moderator, unmod, remove_moderator,
}
use rust_defluencer.Channel.Banning.{is_none}
use rust_defluencer.Channel.Lists.{
  live_settings, is_moderator, is_banned, is_followed, LiveSaved, put_live-Ensures, KeepsRest,
  KeepsRest-same, KeepsRest-saved, live_settings_after, is_followed_after, is_banned_after,
}

abbrev pub with_mods : {C P : Type 0} → Option C → LiveSettings C P → LiveSettings C P
with_mods link live = record live { mods = link }

module _ {C S A N P : Type 0} ⦃keys : Key A⦄ ⦃names_order : Key N⦄ (ipfs : Ipfs C S)
    (names : Names C S ipfs) (codecs : Codecs ipfs.Block C A N P) (default_peer : P) where
  -- What the three lists say of a user and a channel.
  abbrev pub Says : A → N → Bool → Bool → Bool → S → Type 0
  Says a n x y z s =
      (is_moderator ipfs names codecs default_peer a s ≡ ok x)
      × (is_banned ipfs names codecs default_peer a s ≡ ok y)
      × (is_followed ipfs names codecs default_peer n s ≡ ok z)

  module _ (a : A) (n : N) (x y z : Bool) (s : S) (r : C × ChannelMetadata C)
      (live : LiveSettings C P) (mods : Moderators A)
      (meta : get_metadata ipfs names codecs default_peer s ≡ ok r)
      (loaded : get_live ipfs names codecs default_peer r.1 s ≡ ok live)
      (banned_before : is_banned ipfs names codecs default_peer a s ≡ ok y)
      (followed_before : is_followed ipfs names codecs default_peer n s ≡ ok z) where
    -- Storing a list of moderators, and the settings that link to it.
    put_mods-Ensures :
        (new : Moderators A)
        → Ensures
            (λ answer s'.
              Says a n (set_contains a new.moderator_addrs) y z s'
              × (is_none answer ≡ false)
              × KeepsRest ipfs names codecs default_peer with_mods s s')
            ((dag_put ipfs codecs.moderator_list new >>= λ mods_cid.
                put_live ipfs names codecs default_peer r.0 r.1
                  (record live { mods = some mods_cid })
                >>= λ _. pure (some mods_cid))
              s)
    unfolding is_moderator get_mods
    put_mods-Ensures new =
        Ensures-bind
          (λ (c : C) (t : S). (dag_get ipfs codecs.moderator_list c t ≡ ok new) × Grows ipfs s t)
          (λ answer s'.
            Says a n (set_contains a new.moderator_addrs) y z s'
            × (is_none answer ≡ false)
            × KeepsRest ipfs names codecs default_peer with_mods s s')
          (dag_put ipfs codecs.moderator_list new)
          (λ mods_cid.
            put_live ipfs names codecs default_peer r.0 r.1 (record live { mods = some mods_cid })
            >>= λ _. pure (some mods_cid))
          s (dag_put-Ensures ipfs codecs.moderator_list new s)
          (λ c _ put.
            let t = (dag_put ipfs codecs.moderator_list new s).1 in
            let live' : LiveSettings C P = record live { mods = some c } in
            Ensures-bind (λ root s'. LiveSaved ipfs names codecs default_peer live' r.1 t s')
              (λ answer s'.
                Says a n (set_contains a new.moderator_addrs) y z s'
                × (is_none answer ≡ false)
                × KeepsRest ipfs names codecs default_peer with_mods s s')
              (put_live ipfs names codecs default_peer r.0 r.1 live') (λ _. pure (some c)) t
              (put_live-Ensures ipfs names codecs default_peer r.0 r.1 live' t)
              (λ root _ saved.
                let s' = (put_live ipfs names codecs default_peer r.0 r.1 live' t).1 in
                let all : LiveSaved ipfs names codecs default_peer live' r.1 s s' =
                  (saved.0, Grows-trans ipfs s t s' put.1 saved.1) in
                (
                  (
                    rw
                        (
                          live_settings_after ipfs names codecs default_peer s r live meta loaded
                              live' s' all,
                          dag_get-Grows ipfs codecs.moderator_list c t s' new saved.1 put.0,
                        )
                        refl,
                    is_banned_after ipfs names codecs default_peer s r live meta loaded live' s' all
                        a y refl banned_before,
                    is_followed_after ipfs names codecs default_peer s r live meta loaded live' s'
                        all n z followed_before,
                  ),
                  refl,
                  KeepsRest-saved ipfs names codecs default_peer s r live meta loaded live' s' all
                      with_mods (some c) refl,
                )))

  -- The blocks that were read to say who is a moderator.
  loads_of_is_banned :
      (a : A) (x : Bool) (s : S)
      → is_moderator ipfs names codecs default_peer a s ≡ ok x
      → (r : C × ChannelMetadata C) × (live : LiveSettings C P) × (mods : Moderators A)
        × (get_metadata ipfs names codecs default_peer s ≡ ok r)
        × (get_live ipfs names codecs default_peer r.1 s ≡ ok live)
        × (get_mods ipfs names codecs default_peer live s ≡ ok mods)
        × (set_contains a mods.moderator_addrs ≡ x)
  unfolding is_moderator live_settings
  loads_of_is_banned a x s h =
      let (live, el, rest) =
        and_then-returned (live_settings ipfs names codecs default_peer s) _ x h in
      let (r, er, loaded) =
        and_then-returned (get_metadata ipfs names codecs default_peer s) _ live el in
      let (mods, eb, last) =
        and_then-returned (get_mods ipfs names codecs default_peer live s) _ x rest in
      (r, live, mods, er, loaded, eb, cc)

  is_moderator_of_loads :
      (u : A) (s : S) (r : C × ChannelMetadata C) (live : LiveSettings C P) (mods : Moderators A)
      → get_metadata ipfs names codecs default_peer s ≡ ok r
      → get_live ipfs names codecs default_peer r.1 s ≡ ok live
      → get_mods ipfs names codecs default_peer live s ≡ ok mods
      → is_moderator ipfs names codecs default_peer u s ≡ ok (set_contains u mods.moderator_addrs)
  unfolding is_moderator live_settings
  is_moderator_of_loads u s r live mods er el eb = rw (er, el, eb) refl

  module _ (user a : A) (n : N) (x y z : Bool) (s : S)
      (mod_before : is_moderator ipfs names codecs default_peer a s ≡ ok x)
      (banned_before : is_banned ipfs names codecs default_peer a s ≡ ok y)
      (followed_before : is_followed ipfs names codecs default_peer n s ≡ ok z) where
    abbrev AddPost : Option C → S → Type 0
    AddPost answer s' =
        Says a n (same_key a user || x) y z s'
        × (is_moderator ipfs names codecs default_peer user s ≡ ok (is_none answer))
        × KeepsRest ipfs names codecs default_peer with_mods s s'

    abbrev RemovePost : Option C → S → Type 0
    RemovePost answer s' =
        Says a n (not (same_key a user) && x) y z s'
        × (is_moderator ipfs names codecs default_peer user s ≡ ok (not (is_none answer)))
        × KeepsRest ipfs names codecs default_peer with_mods s s'

    add_moderator-Ensures : Ensures AddPost (add_moderator ipfs names codecs default_peer user s)
    unfolding add_moderator
    add_moderator-Ensures =
        let (r, live, mods, er, el, eb, ex) = loads_of_is_banned a x s mod_before in
        let eu = is_moderator_of_loads user s r live mods er el eb in
        rw (er, el, eb)
          (elim (Bool-cases (set_contains user mods.moderator_addrs)) [
            | inl t ↦ rw t (
              (
                mod_before
                    ∙ ap ok (
                        sym (
                          ap (λ b. same_key a user || b) (sym ex)
                          ∙ or_present a user mods.moderator_addrs t
                          ∙ ex)),
                banned_before,
                followed_before,
              ),
              eu ∙ ap ok t,
              KeepsRest-same ipfs names codecs default_peer s r live er el with_mods live.mods refl,
            )
            | inr f ↦ rw f (
                let new : Moderators A = record {
                  moderator_addrs = set_insert user mods.moderator_addrs;
                } in
                Post-imp
                  (λ answer s'.
                    Says a n (set_contains a new.moderator_addrs) y z s'
                    × (is_none answer ≡ false)
                    × KeepsRest ipfs names codecs default_peer with_mods s s')
                  AddPost _ _
                  (λ answer _ p. (
                    (
                      p.0.0
                          ∙ ap ok (
                              set_contains-set_insert a user mods.moderator_addrs
                              ∙ ap (λ b. same_key a user || b) ex),
                      p.0.1,
                      p.0.2,
                    ),
                    eu ∙ ap ok (f ∙ sym p.1),
                    p.2,
                  ))
                  (put_mods-Ensures a n x y z s r live mods er el banned_before followed_before
                    new))
          ])

    unmod-Ensures :
        (r : C × ChannelMetadata C) (live : LiveSettings C P) (mods : Moderators A) (o : Option C)
        → get_metadata ipfs names codecs default_peer s ≡ ok r
        → get_live ipfs names codecs default_peer r.1 s ≡ ok live
        → get_or ipfs codecs.moderator_list (ok no_moderators) o s ≡ ok mods
        → set_contains a mods.moderator_addrs ≡ x
        → is_moderator ipfs names codecs default_peer user s
          ≡ ok (set_contains user mods.moderator_addrs)
        → Ensures RemovePost (unmod ipfs names codecs default_peer user r.0 r.1 live o s)
    unfolding unmod set_contains
    unmod-Ensures r live mods none er el eb ex eu =
        let e : no_moderators ≡ mods = cc in
        let f : set_contains user mods.moderator_addrs ≡ false =
          sym (ap (λ (b : Moderators A). set_contains user b.moderator_addrs) e) in
        (
          (
            mod_before
                ∙ ap ok (
                    sym (
                      ap (λ b. not (same_key a user) && b) (sym ex)
                      ∙ and_absent a user mods.moderator_addrs f
                      ∙ ex)),
            banned_before,
            followed_before,
          ),
          eu ∙ ap ok f,
          KeepsRest-same ipfs names codecs default_peer s r live er el with_mods live.mods refl,
        )
    unmod-Ensures r live mods (some link) er el eb ex eu =
        rw eb (elim (Bool-cases (set_contains user mods.moderator_addrs)) [
          | inl t ↦ rw t (
              let new : Moderators A = record {
                moderator_addrs = set_remove user mods.moderator_addrs;
              } in
              Post-imp
                (λ answer s'.
                  Says a n (set_contains a new.moderator_addrs) y z s'
                  × (is_none answer ≡ false)
                  × KeepsRest ipfs names codecs default_peer with_mods s s')
                RemovePost _ _
                (λ answer _ p. (
                  (
                    p.0.0
                        ∙ ap ok (
                            set_contains-set_remove a user mods.moderator_addrs
                            ∙ ap (λ b. not (same_key a user) && b) ex),
                    p.0.1,
                    p.0.2,
                  ),
                  eu ∙ ap ok (t ∙ ap not (sym p.1)),
                  p.2,
                ))
                (put_mods-Ensures a n x y z s r live mods er el banned_before followed_before new))
          | inr f ↦ rw f (
            (
              mod_before
                  ∙ ap ok (
                      sym (
                        ap (λ b. not (same_key a user) && b) (sym ex)
                        ∙ and_absent a user mods.moderator_addrs f
                        ∙ ex)),
              banned_before,
              followed_before,
            ),
            eu ∙ ap ok f,
            KeepsRest-same ipfs names codecs default_peer s r live er el with_mods live.mods refl,
          )
        ])

    remove_moderator-Ensures :
        Ensures RemovePost (remove_moderator ipfs names codecs default_peer user s)
    unfolding remove_moderator get_mods
    remove_moderator-Ensures =
        let (r, live, mods, er, el, eb, ex) = loads_of_is_banned a x s mod_before in
        rw (er, el)
          (unmod-Ensures r live mods live.mods er el eb ex
            (is_moderator_of_loads user s r live mods er el eb))

  -- Where the three lists can be read and `add_moderator` returns,
  -- the user is a moderator, and of everybody else the list says what
  -- it said; so do the ban list and the follow list. It returns no new list exactly where the user
  -- was a moderator before. The metadata differ in the link to the live settings at most, these in
  -- the link to the moderators at most, and no block is lost.
  pub add_moderator_lem :
      (user a : A) (n : N) (x y z : Bool) (s : S) (answer : Option C) (s' : S)
      → is_moderator ipfs names codecs default_peer a s ≡ ok x
      → is_banned ipfs names codecs default_peer a s ≡ ok y
      → is_followed ipfs names codecs default_peer n s ≡ ok z
      → add_moderator ipfs names codecs default_peer user s ≡ (ok answer, s')
      → Says a n (same_key a user || x) y z s'
        × (is_moderator ipfs names codecs default_peer user s ≡ ok (is_none answer))
        × KeepsRest ipfs names codecs default_peer with_mods s s'
  add_moderator_lem user a n x y z s answer s' bx by bz run =
      Ensures-returned (AddPost user a n x y z s bx by bz)
        (add_moderator ipfs names codecs default_peer user s) answer s'
        (add_moderator-Ensures user a n x y z s bx by bz) run

  -- Where the three lists can be read and `remove_moderator` returns,
  -- the user is no moderator, and of everybody else the list says
  -- what it said; so do the ban list and the follow list. It returns a new list exactly where the
  -- user was a moderator before. The metadata differ in the link to the live settings at most, these in
  -- the link to the moderators at most, and no block is lost.
  pub remove_moderator_lem :
      (user a : A) (n : N) (x y z : Bool) (s : S) (answer : Option C) (s' : S)
      → is_moderator ipfs names codecs default_peer a s ≡ ok x
      → is_banned ipfs names codecs default_peer a s ≡ ok y
      → is_followed ipfs names codecs default_peer n s ≡ ok z
      → remove_moderator ipfs names codecs default_peer user s ≡ (ok answer, s')
      → Says a n (not (same_key a user) && x) y z s'
        × (is_moderator ipfs names codecs default_peer user s ≡ ok (not (is_none answer)))
        × KeepsRest ipfs names codecs default_peer with_mods s s'
  remove_moderator_lem user a n x y z s answer s' bx by bz run =
      Ensures-returned (RemovePost user a n x y z s bx by bz)
        (remove_moderator ipfs names codecs default_peer user s) answer s'
        (remove_moderator-Ensures user a n x y z s bx by bz) run
