-- ===== src/Channel/Media/Tests.antt =====
-- A content added and removed again, and a first comment, on an IPFS node with a name.
use rust_defluencer.Base.{
  ℕ, ◌≡◌, refl, sym, ap, true, false, none, some, Option, List, [], ◌∷◌, ◌++◌, ◌%◌, ◌/◌, Result, ok,
  err, panic, ipfs_api, length, get_elem?, replicate,
}
use rust_defluencer.Base.Key.{nat_key}
use rust_defluencer.Base.Sets.{set_contains, set_remove, map_get, map_insert, map_remove}
use rust_defluencer.Ipfs.{Ipfs, Linked, dag_put, dag_get}
use rust_defluencer.Ipfs.Memory.{found, get_after_put, put_keeps_old}
use rust_defluencer.LinkedData.Channel.{ChannelMetadata, Follows, LiveSettings, Bans, Moderators}
use rust_defluencer.LinkedData.DateTime.{Level, Seconds}
use rust_defluencer.LinkedData.Hamt.{Digest, HamtNode, HamtRoot, empty_root, bucket_insert}
use rust_defluencer.Channel.{Names, Codecs, get_metadata, update_metadata}
use rust_defluencer.DateTime.{
  DateTime, add_to_second, put_level, insert_in, put_rest, remove_from_second, put_left, remove_in,
  put_year,
}
use rust_defluencer.DateTime.Contents.{contains_in, contains}
use rust_defluencer.Hamt.{
  byte, slot, add_slot, put_slot, set_bit, put_node, set_all, set_in, set_key, find_in, find, get,
}
use rust_defluencer.Channel.Media.{
  Media, IndexCodecs, datetime_of, add_content, without_comments, end_removal, remove_content,
  media_of, or_new, add_to_comments, add_comment,
}
use rust_defluencer.Channel.Media.Contents.{has_content, Gone, add_content_lem, remove_content_lem}
use rust_defluencer.Channel.Media.Comments.{comments_of, Commented, add_comment_lem}

data Block : Type 0 where
  of_metadata : ChannelMetadata ℕ → Block
  of_level : ℕ → Level ℕ ℕ → Block
  of_seconds : Seconds ℕ ℕ → Block
  of_node : HamtNode ℕ → Block
  of_root : HamtRoot ℕ → Block
  of_follows : Follows ℕ → Block
  of_settings : LiveSettings ℕ ℕ → Block
  of_bans : Bans ℕ → Block
  of_moderators : Moderators ℕ → Block

abbrev to_metadata : Block → Result (ChannelMetadata ℕ)
to_metadata (of_metadata m) = ok m
to_metadata _ = err ipfs_api

abbrev to_level : Block → Result (Level ℕ ℕ)
to_level (of_level n l) = ok l
to_level _ = err ipfs_api

abbrev to_seconds : Block → Result (Seconds ℕ ℕ)
to_seconds (of_seconds s) = ok s
to_seconds _ = err ipfs_api

abbrev to_node : Block → Result (HamtNode ℕ)
to_node (of_node n) = ok n
to_node _ = err ipfs_api

abbrev to_root : Block → Result (HamtRoot ℕ)
to_root (of_root r) = ok r
to_root _ = err ipfs_api

abbrev to_follows : Block → Result (Follows ℕ)
to_follows (of_follows m) = ok m
to_follows _ = err ipfs_api

abbrev to_settings : Block → Result (LiveSettings ℕ ℕ)
to_settings (of_settings m) = ok m
to_settings _ = err ipfs_api

abbrev to_bans : Block → Result (Bans ℕ)
to_bans (of_bans m) = ok m
to_bans _ = err ipfs_api

abbrev to_moderators : Block → Result (Moderators ℕ)
to_moderators (of_moderators m) = ok m
to_moderators _ = err ipfs_api

abbrev level_codec : ℕ → Linked Block (Level ℕ ℕ)
level_codec n = record { encode = of_level n; decode = to_level; decode-encode = λ t. refl }

abbrev codecs : Codecs Block ℕ ℕ ℕ ℕ
codecs = record {
  metadata = record { encode = of_metadata; decode = to_metadata; decode-encode = λ t. refl };
  follow_list = record { encode = of_follows; decode = to_follows; decode-encode = λ t. refl };
  settings = record { encode = of_settings; decode = to_settings; decode-encode = λ t. refl };
  ban_list = record { encode = of_bans; decode = to_bans; decode-encode = λ t. refl };
  moderator_list = record {
    encode = of_moderators;
    decode = to_moderators;
    decode-encode = λ t. refl;
  };
}

abbrev indexes : IndexCodecs Block ℕ ℕ
indexes = record {
  levels = record {
    yearly = level_codec 0;
    monthly = level_codec 1;
    daily = level_codec 2;
    hourly = level_codec 3;
    minutes = level_codec 4;
    seconds = record { encode = of_seconds; decode = to_seconds; decode-encode = λ t. refl };
  };
  nodes = record { encode = of_node; decode = to_node; decode-encode = λ t. refl };
  roots = record { encode = of_root; decode = to_root; decode-encode = λ t. refl };
}

-- The blocks, and what the name resolves to.
abbrev State : Type 0
State = List Block × ℕ

abbrev node : Ipfs ℕ State
node = record {
  Block = Block;
  put_block = λ b s. (ok (length s.0), (s.0 ++ b ∷ [], s.1));
  get_block = λ c s. found (get_elem? s.0 c);
  get-put = λ b s c h. get_after_put b s.0 c h;
  put_keeps = λ b s c b' h. put_keeps_old b s.0 c b' h;
}

abbrev names : Names ℕ State node
names = record {
  name_resolve = λ s. ok s.1;
  pin_update = λ old new s. (ok tt, s);
  update = λ c s. (ok tt, (s.0, c));
  pin_keeps = λ old new s c b h. h;
  update_keeps = λ c' s c b h. h;
  resolve-update = λ c s h. refl;
}

abbrev noon : DateTime ℕ
noon = record { year = 2022; month = 11; day = 5; hour = 12; minute = 0; second = 0 }

-- Everything is of noon, and every comment on 5.
abbrev media : Media ℕ State ℕ ℕ
media = record {
  user_timestamp = λ c s. ok 0;
  origin = λ c s. ok (some 5);
  timestamp_opt = λ t. some noon;
}

abbrev digest_of : ℕ → Result Digest
digest_of k = ok (k % 256 ∷ k / 256 ∷ replicate 30 0)

abbrev length_of : Result Digest → ℕ
length_of (ok d) = length d
length_of (err e) = 32
length_of panic = 32

digest_of-length : (k : ℕ) (d : Digest) → digest_of k ≡ ok d → length d ≡ 32
digest_of-length k d h = sym (ap length_of h)

-- The content that is added.
abbrev content : ℕ
content = 7

abbrev start : State
start = (
  of_metadata (record {
    identity = 0;
    content_index = none;
    comment_index = none;
    live = none;
    follows = none;
    agregation_channel = none;
  })
      ∷ [],
  0,
)

abbrev added : State
added = (add_content node names codecs 0 media indexes digest_of 7 start).1

abbrev gone : State
gone = (remove_content node names codecs 0 media indexes digest_of 7 added).1

at_noon : (s : State) → datetime_of node names codecs 0 media indexes digest_of 7 s ≡ ok noon
unfolding datetime_of
at_noon s = refl

nothing_before : has_content node names codecs 0 media indexes digest_of noon 7 start ≡ ok false
unfolding has_content get_metadata contains contains_in map_get dag_get
nothing_before = refl

add_content_runs : add_content node names codecs 0 media indexes digest_of 7 start ≡ (ok 7, added)
unfolding add_content datetime_of get_metadata update_metadata rust_defluencer.DateTime.insert
    insert_in add_to_second put_level map_get map_insert dag_put dag_get
add_content_runs = refl

add_content_lem_example :
    (has_content node names codecs 0 media indexes digest_of noon 7 added ≡ ok true)
    × (content ≡ content)
add_content_lem_example =
    add_content_lem node names codecs 0 media indexes digest_of 7 noon noon 7 false start added 7
      (at_noon start) nothing_before add_content_runs

added_holds :
    (has_content node names codecs 0 media indexes digest_of noon 7 added ≡ ok true)
    × (content ≡ content)
added_holds =
    add_content_lem node names codecs 0 media indexes digest_of 7 noon noon 7 false start added 7
      (at_noon start) nothing_before add_content_runs

remove_content_runs :
    remove_content node names codecs 0 media indexes digest_of 7 added ≡ (ok (some 7), gone)
unfolding add_content remove_content end_removal without_comments datetime_of get_metadata
    update_metadata rust_defluencer.DateTime.insert insert_in add_to_second put_level map_get
    map_insert map_remove dag_put dag_get rust_defluencer.DateTime.remove remove_in
    remove_from_second put_left put_rest put_year set_remove set_contains
remove_content_runs = refl

remove_content_lem_example :
    Gone node names codecs 0 media indexes digest_of 7 noon noon 7 true true added (some 7) gone
remove_content_lem_example =
    remove_content_lem node names codecs 0 media indexes digest_of 7 noon noon 7 true true added
      gone (some 7) (at_noon added) added_holds.0 added_holds.0 remove_content_runs

commented : Result (Option ℕ) × State
unfolding add_comment add_to_comments media_of or_new get_metadata update_metadata get find find_in
    rust_defluencer.Hamt.insert set_key set_in set_all put_node put_slot add_slot slot byte
    empty_root dag_put dag_get bucket_insert
commented = add_comment node names codecs 0 media indexes digest_of 9 start

commented_runs :
    add_comment node names codecs 0 media indexes digest_of 9 start ≡ (ok (some 9), commented.1)
unfolding commented
commented_runs = refl

no_comments :
    comments_of node names codecs 0 media indexes digest_of digest_of-length 5 start ≡ ok none
unfolding comments_of get_metadata dag_get
no_comments = refl

on_content : media_of node names codecs 0 media indexes digest_of 9 start ≡ ok 5
unfolding media_of
on_content = refl

add_comment_lem_example :
    Commented node names codecs 0 media indexes digest_of digest_of-length 9 5 none commented.1
add_comment_lem_example =
    add_comment_lem node names codecs 0 media indexes digest_of digest_of-length 9 5
      (9 ∷ 0 ∷ replicate 30 0) (5 ∷ 0 ∷ replicate 30 0) none start commented.1 (some 9) refl refl
      on_content no_comments commented_runs
