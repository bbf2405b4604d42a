-- ===== src/Channel/Tests.antt =====
-- The operations of a channel, run on an IPFS node with a name. The first block is the metadata of a
-- channel that has no lists yet.
use rust_defluencer.Base.{
  ℕ, ◌≡◌, refl, true, false, none, some, List, [], ◌∷◌, ◌++◌, Result, ok, err, ipfs_api, length,
  get_elem?, already_added,
}
use rust_defluencer.Base.Key.{nat_key}
use rust_defluencer.Base.Sets.{set_contains, set_insert, set_remove}
use rust_defluencer.Ipfs.{Ipfs, dag_put, dag_get}
use rust_defluencer.Ipfs.Memory.{found, get_after_put, put_keeps_old}
use rust_defluencer.LinkedData.Channel.{ChannelMetadata, Follows, LiveSettings, Bans, Moderators}
use rust_defluencer.Channel.{
  Names, Codecs, get_metadata, update_metadata, get_live, get_bans, get_mods, put_live, put_follows,
  follow, unfollow, ban_user, unban, unban_user, add_moderator, unmod, remove_moderator,
}
use rust_defluencer.Channel.Lists.{
  live_settings, is_banned, is_moderator, is_followed, KeepsRest, KeepsOthers,
}
use rust_defluencer.Channel.Banning.{is_none, ban_user_lem, unban_user_lem}
use rust_defluencer.Channel.Banning
use rust_defluencer.Channel.Moderating.{add_moderator_lem, remove_moderator_lem}
use rust_defluencer.Channel.Moderating
use rust_defluencer.Channel.Following.{follow_lem, unfollow_lem, follow-refused}
use rust_defluencer.Channel.Following

data Block : Type 0 where
  of_metadata : ChannelMetadata ℕ → Block
  of_follows : Follows ℕ → Block
  of_settings : LiveSettings ℕ ℕ → Block
  of_bans : Bans ℕ → Block
  of_moderators : Moderators ℕ → Block

abbrev to_metadata : Block → Result (ChannelMetadata ℕ)
to_metadata (of_metadata m) = ok m
to_metadata _ = err ipfs_api

abbrev to_follows : Block → Result (Follows ℕ)
to_follows (of_follows m) = ok m
to_follows _ = err ipfs_api

abbrev to_settings : Block → Result (LiveSettings ℕ ℕ)
to_settings (of_settings m) = ok m
to_settings _ = err ipfs_api

abbrev to_bans : Block → Result (Bans ℕ)
to_bans (of_bans m) = ok m
to_bans _ = err ipfs_api

abbrev to_moderators : Block → Result (Moderators ℕ)
to_moderators (of_moderators m) = ok m
to_moderators _ = err ipfs_api

abbrev codecs : Codecs Block ℕ ℕ ℕ ℕ
codecs = record {
  metadata = record { encode = of_metadata; decode = to_metadata; decode-encode = λ t. refl };
  follow_list = record { encode = of_follows; decode = to_follows; decode-encode = λ t. refl };
  settings = record { encode = of_settings; decode = to_settings; decode-encode = λ t. refl };
  ban_list = record { encode = of_bans; decode = to_bans; decode-encode = λ t. refl };
  moderator_list = record {
    encode = of_moderators;
    decode = to_moderators;
    decode-encode = λ t. refl;
  };
}

-- The blocks, and what the name resolves to.
abbrev State : Type 0
State = List Block × ℕ

abbrev node : Ipfs ℕ State
node = record {
  Block = Block;
  put_block = λ b s. (ok (length s.0), (s.0 ++ b ∷ [], s.1));
  get_block = λ c s. found (get_elem? s.0 c);
  get-put = λ b s c h. get_after_put b s.0 c h;
  put_keeps = λ b s c b' h. put_keeps_old b s.0 c b' h;
}

abbrev names : Names ℕ State node
names = record {
  name_resolve = λ s. ok s.1;
  pin_update = λ old new s. (ok tt, s);
  update = λ c s. (ok tt, (s.0, c));
  pin_keeps = λ old new s c b h. h;
  update_keeps = λ c' s c b h. h;
  resolve-update = λ c s h. refl;
}

abbrev start : State
start = (
  of_metadata (record {
    identity = 0;
    content_index = none;
    comment_index = none;
    live = none;
    follows = none;
    agregation_channel = none;
  })
      ∷ [],
  0,
)

abbrev banned : State
banned = (ban_user node names codecs 0 7 start).1

abbrev unbanned : State
unbanned = (unban_user node names codecs 0 7 banned).1

abbrev moderated : State
moderated = (add_moderator node names codecs 0 7 start).1

abbrev unmoderated : State
unmoderated = (remove_moderator node names codecs 0 7 moderated).1

abbrev following : State
following = (follow node names codecs 0 7 start).1

abbrev unfollowing : State
unfollowing = (unfollow node names codecs 0 7 following).1

ban_user_runs : ban_user node names codecs 0 7 start ≡ (ok (some 1), banned)
unfolding set_contains set_insert set_remove dag_put dag_get get_metadata update_metadata get_live
    get_bans get_mods put_live put_follows follow unfollow ban_user unban unban_user add_moderator
    unmod remove_moderator live_settings is_banned is_moderator is_followed
ban_user_runs = refl

unban_user_runs : unban_user node names codecs 0 7 banned ≡ (ok (some 4), unbanned)
unfolding set_contains set_insert set_remove dag_put dag_get get_metadata update_metadata get_live
    get_bans get_mods put_live put_follows follow unfollow ban_user unban unban_user add_moderator
    unmod remove_moderator live_settings is_banned is_moderator is_followed
unban_user_runs = refl

add_moderator_runs : add_moderator node names codecs 0 7 start ≡ (ok (some 1), moderated)
unfolding set_contains set_insert set_remove dag_put dag_get get_metadata update_metadata get_live
    get_bans get_mods put_live put_follows follow unfollow ban_user unban unban_user add_moderator
    unmod remove_moderator live_settings is_banned is_moderator is_followed
add_moderator_runs = refl

remove_moderator_runs :
    remove_moderator node names codecs 0 7 moderated ≡ (ok (some 4), unmoderated)
unfolding set_contains set_insert set_remove dag_put dag_get get_metadata update_metadata get_live
    get_bans get_mods put_live put_follows follow unfollow ban_user unban unban_user add_moderator
    unmod remove_moderator live_settings is_banned is_moderator is_followed
remove_moderator_runs = refl

follow_runs : follow node names codecs 0 7 start ≡ (ok 1, following)
unfolding set_contains set_insert set_remove dag_put dag_get get_metadata update_metadata get_live
    get_bans get_mods put_live put_follows follow unfollow ban_user unban unban_user add_moderator
    unmod remove_moderator live_settings is_banned is_moderator is_followed
follow_runs = refl

unfollow_runs : unfollow node names codecs 0 7 following ≡ (ok 3, unfollowing)
unfolding set_contains set_insert set_remove dag_put dag_get get_metadata update_metadata get_live
    get_bans get_mods put_live put_follows follow unfollow ban_user unban unban_user add_moderator
    unmod remove_moderator live_settings is_banned is_moderator is_followed
unfollow_runs = refl

start-is_banned : is_banned node names codecs 0 7 start ≡ ok false
unfolding set_contains set_insert set_remove dag_put dag_get get_metadata update_metadata get_live
    get_bans get_mods put_live put_follows follow unfollow ban_user unban unban_user add_moderator
    unmod remove_moderator live_settings is_banned is_moderator is_followed
start-is_banned = refl

start-is_moderator : is_moderator node names codecs 0 7 start ≡ ok false
unfolding set_contains set_insert set_remove dag_put dag_get get_metadata update_metadata get_live
    get_bans get_mods put_live put_follows follow unfollow ban_user unban unban_user add_moderator
    unmod remove_moderator live_settings is_banned is_moderator is_followed
start-is_moderator = refl

start-is_followed : is_followed node names codecs 0 7 start ≡ ok false
unfolding set_contains set_insert set_remove dag_put dag_get get_metadata update_metadata get_live
    get_bans get_mods put_live put_follows follow unfollow ban_user unban unban_user add_moderator
    unmod remove_moderator live_settings is_banned is_moderator is_followed
start-is_followed = refl

banned-is_banned : is_banned node names codecs 0 7 banned ≡ ok true
unfolding set_contains set_insert set_remove dag_put dag_get get_metadata update_metadata get_live
    get_bans get_mods put_live put_follows follow unfollow ban_user unban unban_user add_moderator
    unmod remove_moderator live_settings is_banned is_moderator is_followed
banned-is_banned = refl

banned-is_moderator : is_moderator node names codecs 0 7 banned ≡ ok false
unfolding set_contains set_insert set_remove dag_put dag_get get_metadata update_metadata get_live
    get_bans get_mods put_live put_follows follow unfollow ban_user unban unban_user add_moderator
    unmod remove_moderator live_settings is_banned is_moderator is_followed
banned-is_moderator = refl

banned-is_followed : is_followed node names codecs 0 7 banned ≡ ok false
unfolding set_contains set_insert set_remove dag_put dag_get get_metadata update_metadata get_live
    get_bans get_mods put_live put_follows follow unfollow ban_user unban unban_user add_moderator
    unmod remove_moderator live_settings is_banned is_moderator is_followed
banned-is_followed = refl

moderated-is_banned : is_banned node names codecs 0 7 moderated ≡ ok false
unfolding set_contains set_insert set_remove dag_put dag_get get_metadata update_metadata get_live
    get_bans get_mods put_live put_follows follow unfollow ban_user unban unban_user add_moderator
    unmod remove_moderator live_settings is_banned is_moderator is_followed
moderated-is_banned = refl

moderated-is_moderator : is_moderator node names codecs 0 7 moderated ≡ ok true
unfolding set_contains set_insert set_remove dag_put dag_get get_metadata update_metadata get_live
    get_bans get_mods put_live put_follows follow unfollow ban_user unban unban_user add_moderator
    unmod remove_moderator live_settings is_banned is_moderator is_followed
moderated-is_moderator = refl

moderated-is_followed : is_followed node names codecs 0 7 moderated ≡ ok false
unfolding set_contains set_insert set_remove dag_put dag_get get_metadata update_metadata get_live
    get_bans get_mods put_live put_follows follow unfollow ban_user unban unban_user add_moderator
    unmod remove_moderator live_settings is_banned is_moderator is_followed
moderated-is_followed = refl

following-is_banned : is_banned node names codecs 0 7 following ≡ ok false
unfolding set_contains set_insert set_remove dag_put dag_get get_metadata update_metadata get_live
    get_bans get_mods put_live put_follows follow unfollow ban_user unban unban_user add_moderator
    unmod remove_moderator live_settings is_banned is_moderator is_followed
following-is_banned = refl

following-is_moderator : is_moderator node names codecs 0 7 following ≡ ok false
unfolding set_contains set_insert set_remove dag_put dag_get get_metadata update_metadata get_live
    get_bans get_mods put_live put_follows follow unfollow ban_user unban unban_user add_moderator
    unmod remove_moderator live_settings is_banned is_moderator is_followed
following-is_moderator = refl

following-is_followed : is_followed node names codecs 0 7 following ≡ ok true
unfolding set_contains set_insert set_remove dag_put dag_get get_metadata update_metadata get_live
    get_bans get_mods put_live put_follows follow unfollow ban_user unban unban_user add_moderator
    unmod remove_moderator live_settings is_banned is_moderator is_followed
following-is_followed = refl

ban_user_lem_example :
    Banning.Says node names codecs 0 7 7 true false false banned
    × (is_banned node names codecs 0 7 start ≡ ok false)
    × KeepsRest node names codecs 0 Banning.with_bans start banned
ban_user_lem_example =
    ban_user_lem node names codecs 0 7 7 7 false false false start (some 1) banned start-is_banned
      start-is_moderator start-is_followed ban_user_runs

unban_user_lem_example :
    Banning.Says node names codecs 0 7 7 false false false unbanned
    × (is_banned node names codecs 0 7 banned ≡ ok true)
    × KeepsRest node names codecs 0 Banning.with_bans banned unbanned
unban_user_lem_example =
    unban_user_lem node names codecs 0 7 7 7 true false false banned (some 4) unbanned
      banned-is_banned banned-is_moderator banned-is_followed unban_user_runs

add_moderator_lem_example :
    Moderating.Says node names codecs 0 7 7 true false false moderated
    × (is_moderator node names codecs 0 7 start ≡ ok false)
    × KeepsRest node names codecs 0 Moderating.with_mods start moderated
add_moderator_lem_example =
    add_moderator_lem node names codecs 0 7 7 7 false false false start (some 1) moderated
      start-is_moderator start-is_banned start-is_followed add_moderator_runs

remove_moderator_lem_example :
    Moderating.Says node names codecs 0 7 7 false false false unmoderated
    × (is_moderator node names codecs 0 7 moderated ≡ ok true)
    × KeepsRest node names codecs 0 Moderating.with_mods moderated unmoderated
remove_moderator_lem_example =
    remove_moderator_lem node names codecs 0 7 7 7 true false false moderated (some 4) unmoderated
      moderated-is_moderator moderated-is_banned moderated-is_followed remove_moderator_runs

follow_lem_example :
    Following.Says node names codecs 0 7 7 7 true false false following
    × KeepsOthers node names codecs 0 start following
follow_lem_example =
    follow_lem node names codecs 0 7 7 7 7 false false false start 1 following start-is_followed
      start-is_banned start-is_moderator follow_runs

unfollow_lem_example :
    Following.Says node names codecs 0 7 7 7 false false false unfollowing
    × KeepsOthers node names codecs 0 following unfollowing
unfollow_lem_example =
    unfollow_lem node names codecs 0 7 7 7 7 true false false following 3 unfollowing
      following-is_followed following-is_banned following-is_moderator unfollow_runs

follow-refused_example : follow node names codecs 0 7 following ≡ (err already_added, following)
follow-refused_example = follow-refused node names codecs 0 7 true following following-is_followed
