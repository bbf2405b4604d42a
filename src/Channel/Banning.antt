-- ===== src/Channel/Banning.antt =====
-- `ban_user` and `unban_user`, and the three lists and the metadata before and after.
use rust_defluencer.Base.{
  ◌≡◌, refl, sym, ◌∙◌, ap, inl, inr, Bool, true, false, not, ◌&&◌, ◌||◌, Option, none, some,
  Bool-cases, and_then-returned, ok, pure, ◌>>=◌, Ensures, Ensures-bind, Ensures-returned, Post-imp,
}
use rust_defluencer.Base.Key.{Key, same_key}
use rust_defluencer.Base.Sets.{
  set_contains, set_insert, set_remove, set_contains-set_insert, set_contains-set_remove,
  or_present, and_absent,
}
use rust_defluencer.Ipfs.{
  Ipfs, Grows, Grows-trans, get_or, dag_put-Ensures, dag_put, dag_get, dag_get-Grows,
}
use rust_defluencer.LinkedData.Channel.{ChannelMetadata, LiveSettings, Bans, no_bans}
use rust_defluencer.Channel.{
  Names, Codecs, get_metadata, get_live, get_bans, put_live, ban_user, unban, unban_user,
}
use rust_defluencer.Channel.Lists.{
  live_settings, is_banned, is_moderator, is_followed, LiveSaved, put_live-Ensures, KeepsRest,
  KeepsRest-same, KeepsRest-saved, live_settings_after, is_followed_after, is_moderator_after,
}

abbrev pub is_none : {C : Type 0} → Option C → Bool
is_none none = true
is_none (some c) = false

abbrev pub with_bans : {C P : Type 0} → Option C → LiveSettings C P → LiveSettings C P
with_bans link live = record live { bans = link }

module _ {C S A N P : Type 0} ⦃keys : Key A⦄ ⦃names_order : Key N⦄ (ipfs : Ipfs C S)
    (names : Names C S ipfs) (codecs : Codecs ipfs.Block C A N P) (default_peer : P) where
  -- What the three lists say of a user and a channel.
  abbrev pub Says : A → N → Bool → Bool → Bool → S → Type 0
  Says a n x y z s =
      (is_banned ipfs names codecs default_peer a s ≡ ok x)
      × (is_moderator ipfs names codecs default_peer a s ≡ ok y)
      × (is_followed ipfs names codecs default_peer n s ≡ ok z)

  module _ (a : A) (n : N) (x y z : Bool) (s : S) (r : C × ChannelMetadata C)
      (live : LiveSettings C P) (bans : Bans A)
      (meta : get_metadata ipfs names codecs default_peer s ≡ ok r)
      (loaded : get_live ipfs names codecs default_peer r.1 s ≡ ok live)
      (mod_before : is_moderator ipfs names codecs default_peer a s ≡ ok y)
      (followed_before : is_followed ipfs names codecs default_peer n s ≡ ok z) where
    -- Storing a ban list, and the settings that link to it.
    put_bans-Ensures :
        (new : Bans A)
        → Ensures
            (λ answer s'.
              Says a n (set_contains a new.banned_addrs) y z s'
              × (is_none answer ≡ false)
              × KeepsRest ipfs names codecs default_peer with_bans s s')
            ((dag_put ipfs codecs.ban_list new >>= λ bans_cid.
                put_live ipfs names codecs default_peer r.0 r.1
                  (record live { bans = some bans_cid })
                >>= λ _. pure (some bans_cid))
              s)
    unfolding is_banned get_bans
    put_bans-Ensures new =
        Ensures-bind
          (λ (c : C) (t : S). (dag_get ipfs codecs.ban_list c t ≡ ok new) × Grows ipfs s t)
          (λ answer s'.
            Says a n (set_contains a new.banned_addrs) y z s'
            × (is_none answer ≡ false)
            × KeepsRest ipfs names codecs default_peer with_bans s s')
          (dag_put ipfs codecs.ban_list new)
          (λ bans_cid.
            put_live ipfs names codecs default_peer r.0 r.1 (record live { bans = some bans_cid })
            >>= λ _. pure (some bans_cid))
          s (dag_put-Ensures ipfs codecs.ban_list new s)
          (λ c _ put.
            let t = (dag_put ipfs codecs.ban_list new s).1 in
            let live' : LiveSettings C P = record live { bans = some c } in
            Ensures-bind (λ root s'. LiveSaved ipfs names codecs default_peer live' r.1 t s')
              (λ answer s'.
                Says a n (set_contains a new.banned_addrs) y z s'
                × (is_none answer ≡ false)
                × KeepsRest ipfs names codecs default_peer with_bans s s')
              (put_live ipfs names codecs default_peer r.0 r.1 live') (λ _. pure (some c)) t
              (put_live-Ensures ipfs names codecs default_peer r.0 r.1 live' t)
              (λ root _ saved.
                let s' = (put_live ipfs names codecs default_peer r.0 r.1 live' t).1 in
                let all : LiveSaved ipfs names codecs default_peer live' r.1 s s' =
                  (saved.0, Grows-trans ipfs s t s' put.1 saved.1) in
                (
                  (
                    rw
                        (
                          live_settings_after ipfs names codecs default_peer s r live meta loaded
                              live' s' all,
                          dag_get-Grows ipfs codecs.ban_list c t s' new saved.1 put.0,
                        )
                        refl,
                    is_moderator_after ipfs names codecs default_peer s r live meta loaded live' s'
                        all a y refl mod_before,
                    is_followed_after ipfs names codecs default_peer s r live meta loaded live' s'
                        all n z followed_before,
                  ),
                  refl,
                  KeepsRest-saved ipfs names codecs default_peer s r live meta loaded live' s' all
                      with_bans (some c) refl,
                )))

  -- The blocks that were read to say who is banned.
  loads_of_is_banned :
      (a : A) (x : Bool) (s : S)
      → is_banned ipfs names codecs default_peer a s ≡ ok x
      → (r : C × ChannelMetadata C) × (live : LiveSettings C P) × (bans : Bans A) × (get_metadata
            ipfs names codecs default_peer s
          ≡ ok r)
        × (get_live ipfs names codecs default_peer r.1 s ≡ ok live)
        × (get_bans ipfs names codecs default_peer live s ≡ ok bans)
        × (set_contains a bans.banned_addrs ≡ x)
  unfolding is_banned live_settings
  loads_of_is_banned a x s h =
      let (live, el, rest) =
        and_then-returned (live_settings ipfs names codecs default_peer s) _ x h in
      let (r, er, loaded) =
        and_then-returned (get_metadata ipfs names codecs default_peer s) _ live el in
      let (bans, eb, last) =
        and_then-returned (get_bans ipfs names codecs default_peer live s) _ x rest in
      (r, live, bans, er, loaded, eb, cc)

  is_banned_of_loads :
      (u : A) (s : S) (r : C × ChannelMetadata C) (live : LiveSettings C P) (bans : Bans A)
      → get_metadata ipfs names codecs default_peer s ≡ ok r
      → get_live ipfs names codecs default_peer r.1 s ≡ ok live
      → get_bans ipfs names codecs default_peer live s ≡ ok bans
      → is_banned ipfs names codecs default_peer u s ≡ ok (set_contains u bans.banned_addrs)
  unfolding is_banned live_settings
  is_banned_of_loads u s r live bans er el eb = rw (er, el, eb) refl

  module _ (user a : A) (n : N) (x y z : Bool) (s : S)
      (banned_before : is_banned ipfs names codecs default_peer a s ≡ ok x)
      (mod_before : is_moderator ipfs names codecs default_peer a s ≡ ok y)
      (followed_before : is_followed ipfs names codecs default_peer n s ≡ ok z) where
    abbrev BanPost : Option C → S → Type 0
    BanPost answer s' =
        Says a n (same_key a user || x) y z s'
        × (is_banned ipfs names codecs default_peer user s ≡ ok (is_none answer))
        × KeepsRest ipfs names codecs default_peer with_bans s s'

    abbrev UnbanPost : Option C → S → Type 0
    UnbanPost answer s' =
        Says a n (not (same_key a user) && x) y z s'
        × (is_banned ipfs names codecs default_peer user s ≡ ok (not (is_none answer)))
        × KeepsRest ipfs names codecs default_peer with_bans s s'

    ban_user-Ensures : Ensures BanPost (ban_user ipfs names codecs default_peer user s)
    unfolding ban_user
    ban_user-Ensures =
        let (r, live, bans, er, el, eb, ex) = loads_of_is_banned a x s banned_before in
        let eu = is_banned_of_loads user s r live bans er el eb in
        rw (er, el, eb)
          (elim (Bool-cases (set_contains user bans.banned_addrs)) [
            | inl t ↦ rw t (
              (
                banned_before
                    ∙ ap ok (
                        sym (
                          ap (λ b. same_key a user || b) (sym ex)
                          ∙ or_present a user bans.banned_addrs t
                          ∙ ex)),
                mod_before,
                followed_before,
              ),
              eu ∙ ap ok t,
              KeepsRest-same ipfs names codecs default_peer s r live er el with_bans live.bans refl,
            )
            | inr f ↦ rw f (
                let new : Bans A = record { banned_addrs = set_insert user bans.banned_addrs } in
                Post-imp
                  (λ answer s'.
                    Says a n (set_contains a new.banned_addrs) y z s'
                    × (is_none answer ≡ false)
                    × KeepsRest ipfs names codecs default_peer with_bans s s')
                  BanPost _ _
                  (λ answer _ p. (
                    (
                      p.0.0
                          ∙ ap ok (
                              set_contains-set_insert a user bans.banned_addrs
                              ∙ ap (λ b. same_key a user || b) ex),
                      p.0.1,
                      p.0.2,
                    ),
                    eu ∙ ap ok (f ∙ sym p.1),
                    p.2,
                  ))
                  (put_bans-Ensures a n x y z s r live bans er el mod_before followed_before new))
          ])

    unban-Ensures :
        (r : C × ChannelMetadata C) (live : LiveSettings C P) (bans : Bans A) (o : Option C)
        → get_metadata ipfs names codecs default_peer s ≡ ok r
        → get_live ipfs names codecs default_peer r.1 s ≡ ok live
        → get_or ipfs codecs.ban_list (ok no_bans) o s ≡ ok bans
        → set_contains a bans.banned_addrs ≡ x
        → is_banned ipfs names codecs default_peer user s ≡ ok (set_contains user bans.banned_addrs)
        → Ensures UnbanPost (unban ipfs names codecs default_peer user r.0 r.1 live o s)
    unfolding unban set_contains
    unban-Ensures r live bans none er el eb ex eu =
        let e : no_bans ≡ bans = cc in
        let f : set_contains user bans.banned_addrs ≡ false =
          sym (ap (λ (b : Bans A). set_contains user b.banned_addrs) e) in
        (
          (
            banned_before
                ∙ ap ok (
                    sym (
                      ap (λ b. not (same_key a user) && b) (sym ex)
                      ∙ and_absent a user bans.banned_addrs f
                      ∙ ex)),
            mod_before,
            followed_before,
          ),
          eu ∙ ap ok f,
          KeepsRest-same ipfs names codecs default_peer s r live er el with_bans live.bans refl,
        )
    unban-Ensures r live bans (some link) er el eb ex eu =
        rw eb (elim (Bool-cases (set_contains user bans.banned_addrs)) [
          | inl t ↦ rw t (
              let new : Bans A = record { banned_addrs = set_remove user bans.banned_addrs } in
              Post-imp
                (λ answer s'.
                  Says a n (set_contains a new.banned_addrs) y z s'
                  × (is_none answer ≡ false)
                  × KeepsRest ipfs names codecs default_peer with_bans s s')
                UnbanPost _ _
                (λ answer _ p. (
                  (
                    p.0.0
                        ∙ ap ok (
                            set_contains-set_remove a user bans.banned_addrs
                            ∙ ap (λ b. not (same_key a user) && b) ex),
                    p.0.1,
                    p.0.2,
                  ),
                  eu ∙ ap ok (t ∙ ap not (sym p.1)),
                  p.2,
                ))
                (put_bans-Ensures a n x y z s r live bans er el mod_before followed_before new))
          | inr f ↦ rw f (
            (
              banned_before
                  ∙ ap ok (
                      sym (
                        ap (λ b. not (same_key a user) && b) (sym ex)
                        ∙ and_absent a user bans.banned_addrs f
                        ∙ ex)),
              mod_before,
              followed_before,
            ),
            eu ∙ ap ok f,
            KeepsRest-same ipfs names codecs default_peer s r live er el with_bans live.bans refl,
          )
        ])

    unban_user-Ensures : Ensures UnbanPost (unban_user ipfs names codecs default_peer user s)
    unfolding unban_user get_bans
    unban_user-Ensures =
        let (r, live, bans, er, el, eb, ex) = loads_of_is_banned a x s banned_before in
        rw (er, el)
          (unban-Ensures r live bans live.bans er el eb ex
            (is_banned_of_loads user s r live bans er el eb))

  -- Where the three lists can be read and `ban_user` returns,
  -- the user is banned, whoever was banned still is, and nobody else became
  -- banned; the moderators and the follow list say what they said. It returns no new list exactly
  -- where the user was banned before. The metadata differ in the link to the live settings at most, these in
  -- the link to the ban list at most, and no block is lost.
  pub ban_user_lem :
      (user a : A) (n : N) (x y z : Bool) (s : S) (answer : Option C) (s' : S)
      → is_banned ipfs names codecs default_peer a s ≡ ok x
      → is_moderator ipfs names codecs default_peer a s ≡ ok y
      → is_followed ipfs names codecs default_peer n s ≡ ok z
      → ban_user ipfs names codecs default_peer user s ≡ (ok answer, s')
      → Says a n (same_key a user || x) y z s'
        × (is_banned ipfs names codecs default_peer user s ≡ ok (is_none answer))
        × KeepsRest ipfs names codecs default_peer with_bans s s'
  ban_user_lem user a n x y z s answer s' bx by bz run =
      Ensures-returned (BanPost user a n x y z s bx by bz)
        (ban_user ipfs names codecs default_peer user s) answer s'
        (ban_user-Ensures user a n x y z s bx by bz) run

  -- Where the three lists can be read and `unban_user` returns,
  -- the user is not banned, and of everybody else the list says what it
  -- said; so do the moderators and the follow list. It returns a new list exactly where the user was
  -- banned before. The metadata differ in the link to the live settings at most, these in
  -- the link to the ban list at most, and no block is lost.
  pub unban_user_lem :
      (user a : A) (n : N) (x y z : Bool) (s : S) (answer : Option C) (s' : S)
      → is_banned ipfs names codecs default_peer a s ≡ ok x
      → is_moderator ipfs names codecs default_peer a s ≡ ok y
      → is_followed ipfs names codecs default_peer n s ≡ ok z
      → unban_user ipfs names codecs default_peer user s ≡ (ok answer, s')
      → Says a n (not (same_key a user) && x) y z s'
        × (is_banned ipfs names codecs default_peer user s ≡ ok (not (is_none answer)))
        × KeepsRest ipfs names codecs default_peer with_bans s s'
  unban_user_lem user a n x y z s answer s' bx by bz run =
      Ensures-returned (UnbanPost user a n x y z s bx by bz)
        (unban_user ipfs names codecs default_peer user s) answer s'
        (unban_user-Ensures user a n x y z s bx by bz) run
