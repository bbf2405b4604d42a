-- ===== src/Channel.antt =====
-- defluencer/src/channel/mod.rs: the operations of a channel on its follow list, its live settings,
-- its ban list, its moderators and its identity. Each resolves the name of the channel, loads the
-- blocks it needs, stores the changed ones from the innermost out, and publishes the new metadata
-- under the name. What names and pins is outside the repository: a parameter.
pub mod Lists
pub mod Following
pub mod Banning
pub mod Moderating
pub mod Media
mod Tests
use Prim.Native.String.{String}
use rust_defluencer.Base.{
  ◌≡◌, Bool, true, false, Option, none, some, List, [], if◌then◌else◌, and_then, Error, not_found,
  already_added, Result, ok, err, Action, pure, lift, read, ◌>>=◌,
}
use rust_defluencer.Base.Key.{Key}
use rust_defluencer.Base.Sets.{set_contains, set_insert, set_remove}
use rust_defluencer.Ipfs.{Ipfs, Linked, Grows, get_or, dag_put, dag_get}
use rust_defluencer.LinkedData.Channel.{
  ChannelMetadata, Follows, LiveSettings, Bans, Moderators, no_follows, no_bans, no_moderators,
  default_settings,
}

-- The name of the channel: what it resolves to, `pin_update` of the IPFS node, and the `IpnsUpdater`
-- of the channel.
pub record Names (C S : Type 0) (ipfs : Ipfs C S) : Type 0 where
  pub name_resolve : S → Result C
  pub pin_update : C → C → Action S Unit
  pub update : C → Action S Unit
  -- Neither loses a block.
  pub pin_keeps : (old new : C) (s : S) → Grows ipfs s (pin_update old new s).1
  pub update_keeps : (c : C) (s : S) → Grows ipfs s (update c s).1
  -- An update that succeeds decides what the name resolves to.
  pub resolve-update : (c : C) (s : S) → (update c s).0 ≡ ok tt → name_resolve (update c s).1 ≡ ok c

-- The codecs of the blocks.
pub record Codecs (Block C A N P : Type 0) : Type 0 where
  pub metadata : Linked Block (ChannelMetadata C)
  pub follow_list : Linked Block (Follows N)
  pub settings : Linked Block (LiveSettings C P)
  pub ban_list : Linked Block (Bans A)
  pub moderator_list : Linked Block (Moderators A)

module _ {C S A N P : Type 0} ⦃keys : Key A⦄ ⦃names_order : Key N⦄ (ipfs : Ipfs C S)
    (names : Names C S ipfs) (codecs : Codecs ipfs.Block C A N P) (default_peer : P) where
  -- `get_metadata`
  unfoldable pub get_metadata : S → Result (C × ChannelMetadata C)
  get_metadata s =
      and_then (names.name_resolve s)
        (λ cid. and_then (dag_get ipfs codecs.metadata cid s) (λ meta. ok (cid, meta)))

  -- `update_metadata`
  unfoldable pub update_metadata : C → ChannelMetadata C → Action S C
  update_metadata old_cid channel = dag_put ipfs codecs.metadata channel >>= λ root.
      names.pin_update old_cid root >>= λ _. names.update root >>= λ _. pure root

  -- The loads that the operations share.
  unfoldable pub get_live : ChannelMetadata C → S → Result (LiveSettings C P)
  get_live channel = get_or ipfs codecs.settings (ok (default_settings default_peer)) channel.live

  unfoldable pub get_bans : LiveSettings C P → S → Result (Bans A)
  get_bans live = get_or ipfs codecs.ban_list (ok no_bans) live.bans

  unfoldable pub get_mods : LiveSettings C P → S → Result (Moderators A)
  get_mods live = get_or ipfs codecs.moderator_list (ok no_moderators) live.mods

  -- The end of the operations on the live settings.
  unfoldable pub put_live : C → ChannelMetadata C → LiveSettings C P → Action S C
  put_live root_cid channel live = dag_put ipfs codecs.settings live >>= λ live_cid.
      update_metadata root_cid (record channel { live = some live_cid })

  -- The end of the operations on the follow list.
  unfoldable pub put_follows : C → ChannelMetadata C → Follows N → Action S C
  put_follows root_cid channel follows = dag_put ipfs codecs.follow_list follows >>= λ cid.
      update_metadata root_cid (record channel { follows = some cid }) >>= λ _. pure cid

  -- `follow`
  unfoldable pub follow : N → Action S C
  follow addr = read get_metadata >>= λ r.
      read (get_or ipfs codecs.follow_list (ok no_follows) r.1.follows) >>= λ follows.
      if set_contains addr follows.followees
      then lift (err already_added)
      else put_follows r.0 r.1 (record { followees = set_insert addr follows.followees })

  -- `unfollow`
  unfoldable pub unfollow : N → Action S C
  unfollow addr = read get_metadata >>= λ r.
      read (get_or ipfs codecs.follow_list (err not_found) r.1.follows) >>= λ follows.
      if set_contains addr follows.followees
      then put_follows r.0 r.1 (record { followees = set_remove addr follows.followees })
      else lift (err not_found)

  -- `replace_follow_list`
  unfoldable pub replace_follow_list : C → Action S C
  replace_follow_list follows = read get_metadata >>= λ r.
      update_metadata r.0 (record r.1 { follows = some follows }) >>= λ _. pure follows

  -- `replace_identity`
  unfoldable pub replace_identity : C → Action S C
  replace_identity identity = read get_metadata >>= λ r.
      update_metadata r.0 (record r.1 { identity = identity }) >>= λ _. pure identity

  abbrev pub or_keep : {T : Type 0} → Option T → T → T
  or_keep none t = t
  or_keep (some u) t = u

  -- `update_live_settings`
  unfoldable pub update_live_settings :
      Option P → Option String → Option String → Option Bool → Action S C
  update_live_settings peer_id video_topic chat_topic archiving = read get_metadata >>= λ r.
      read (get_live r.1) >>= λ live.
      dag_put ipfs codecs.settings (record live {
        peer_id = or_keep peer_id live.peer_id;
        video_topic = or_keep video_topic live.video_topic;
        chat_topic = elim chat_topic [ none ↦ live.chat_topic | some t ↦ some t ];
        archiving = or_keep archiving live.archiving;
      })
      >>= λ cid. update_metadata r.0 (record r.1 { live = some cid }) >>= λ _. pure cid

  -- `replace_live_settings`
  unfoldable pub replace_live_settings : C → Action S C
  replace_live_settings settings = read get_metadata >>= λ r.
      update_metadata r.0 (record r.1 { live = some settings }) >>= λ _. pure settings

  -- `ban_user`
  unfoldable pub ban_user : A → Action S (Option C)
  ban_user user = read get_metadata >>= λ r. read (get_live r.1) >>= λ live.
      read (get_bans live) >>= λ bans.
      if set_contains user bans.banned_addrs
      then pure none
      else (dag_put ipfs codecs.ban_list
            (record { banned_addrs = set_insert user bans.banned_addrs })
          >>= λ bans_cid.
              put_live r.0 r.1 (record live { bans = some bans_cid }) >>= λ _. pure (some bans_cid))

  -- `unban_user`, from where the live settings are known
  unfoldable pub unban :
      A → C → ChannelMetadata C → LiveSettings C P → Option C → Action S (Option C)
  unban user root_cid channel live none = pure none
  unban user root_cid channel live (some link) =
      read (dag_get ipfs codecs.ban_list link) >>= λ bans.
      if set_contains user bans.banned_addrs
      then (dag_put ipfs codecs.ban_list
            (record { banned_addrs = set_remove user bans.banned_addrs })
          >>= λ bans_cid. put_live root_cid channel (record live { bans = some bans_cid }) >>= λ _.
              pure (some bans_cid))
      else pure none

  -- `unban_user`
  unfoldable pub unban_user : A → Action S (Option C)
  unban_user user =
      read get_metadata >>= λ r. read (get_live r.1) >>= λ live. unban user r.0 r.1 live live.bans

  -- `replace_ban_list`
  unfoldable pub replace_ban_list : C → Action S C
  replace_ban_list bans = read get_metadata >>= λ r. read (get_live r.1) >>= λ live.
      put_live r.0 r.1 (record live { bans = some bans }) >>= λ _. pure bans

  -- `add_moderator`
  unfoldable pub add_moderator : A → Action S (Option C)
  add_moderator user = read get_metadata >>= λ r. read (get_live r.1) >>= λ live.
      read (get_mods live) >>= λ mods.
      if set_contains user mods.moderator_addrs
      then pure none
      else (dag_put ipfs codecs.moderator_list
            (record { moderator_addrs = set_insert user mods.moderator_addrs })
          >>= λ mods_cid.
              put_live r.0 r.1 (record live { mods = some mods_cid }) >>= λ _. pure (some mods_cid))

  -- `remove_moderator`, from where the live settings are known
  unfoldable pub unmod :
      A → C → ChannelMetadata C → LiveSettings C P → Option C → Action S (Option C)
  unmod user root_cid channel live none = pure none
  unmod user root_cid channel live (some link) =
      read (dag_get ipfs codecs.moderator_list link) >>= λ mods.
      if set_contains user mods.moderator_addrs
      then (dag_put ipfs codecs.moderator_list
            (record { moderator_addrs = set_remove user mods.moderator_addrs })
          >>= λ mods_cid. put_live root_cid channel (record live { mods = some mods_cid }) >>= λ _.
              pure (some mods_cid))
      else pure none

  -- `remove_moderator`
  unfoldable pub remove_moderator : A → Action S (Option C)
  remove_moderator user =
      read get_metadata >>= λ r. read (get_live r.1) >>= λ live. unmod user r.0 r.1 live live.mods

  -- `replace_moderator_list`
  unfoldable pub replace_moderator_list : C → Action S C
  replace_moderator_list moderators = read get_metadata >>= λ r. read (get_live r.1) >>= λ live.
      put_live r.0 r.1 (record live { mods = some moderators }) >>= λ _. pure moderators
