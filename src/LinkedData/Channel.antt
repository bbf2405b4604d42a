-- ===== src/LinkedData/Channel.antt =====
-- linked-data/src/channel: the metadata of a channel (mod.rs), its follow list (follows.rs), its
-- live settings (live.rs), its ban list and its moderators (moderation.rs). A set of addresses is
-- the list of them in order. `C` is a link, `A` the address of a user, `N` the address of a channel
-- and `P` a peer.
use Prim.Native.String.{String}
use rust_defluencer.Base.{Bool, false, Option, none, List, []}

pub record ChannelMetadata (C : Type 0) : Type 0 where
  pub identity : C
  pub content_index : Option C
  pub comment_index : Option C
  pub live : Option C
  pub follows : Option C
  pub agregation_channel : Option String

pub record Follows (N : Type 0) : Type 0 where
  pub followees : List N

pub record LiveSettings (C P : Type 0) : Type 0 where
  pub peer_id : P
  pub video_topic : String
  pub archiving : Bool
  pub chat_topic : Option String
  pub bans : Option C
  pub mods : Option C

pub record Bans (A : Type 0) : Type 0 where
  pub banned_addrs : List A

pub record Moderators (A : Type 0) : Type 0 where
  pub moderator_addrs : List A

-- The derived `Default` values; the default peer is that of the crate of peers.
abbrev pub no_follows : {N : Type 0} → Follows N
no_follows = record { followees = [] }

abbrev pub no_bans : {A : Type 0} → Bans A
no_bans = record { banned_addrs = [] }

abbrev pub no_moderators : {A : Type 0} → Moderators A
no_moderators = record { moderator_addrs = [] }

abbrev pub default_settings : {C P : Type 0} → P → LiveSettings C P
default_settings peer = record {
  peer_id = peer;
  video_topic = "";
  archiving = false;
  chat_topic = none;
  bans = none;
  mods = none;
}
