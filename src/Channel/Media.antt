-- ===== src/Channel/Media.antt =====
-- defluencer/src/channel/mod.rs: the contents of a channel, filed by date in its chronological index,
-- and the comments on them, in a trie from each content to the trie of its comments. A content or a
-- comment is a block under a signature, loaded at the path "/link": what is read of it is a parameter.
pub mod Contents
pub mod Comments
mod Tests
use rust_defluencer.Base.{
  ◌≡◌, Bool, true, false, List, Option, none, some, and_then, or_panic, Error, timestamp, Result,
  ok, err, Action, pure, lift, read, ◌>>=◌,
}
use rust_defluencer.Base.Key.{Key}
use rust_defluencer.Ipfs.{Ipfs, Linked, dag_put, dag_get}
use rust_defluencer.LinkedData.Channel.{ChannelMetadata}
use rust_defluencer.LinkedData.Hamt.{Digest, HamtNode, HamtRoot, empty_root}
use rust_defluencer.Channel.{Names, Codecs, get_metadata, update_metadata}
use rust_defluencer.DateTime.{DateTime}
use rust_defluencer.Hamt.{get}

-- What is read of a content, `media.user_timestamp()`, and of a comment, `comment.origin`; and
-- `Utc.timestamp_opt` of the crate chrono.
pub record Media (C S I K : Type 0) : Type 0 where
  pub user_timestamp : C → S → Result I
  pub origin : C → S → Result (Option C)
  pub timestamp_opt : I → Option (DateTime K)

pub record IndexCodecs (Block K C : Type 0) : Type 0 where
  pub levels : rust_defluencer.DateTime.Codecs Block K C
  pub nodes : Linked Block (HamtNode C)
  pub roots : Linked Block (HamtRoot C)

abbrev pub or_timestamp : {A : Type 0} → Option A → Result A
or_timestamp none = err timestamp
or_timestamp (some a) = ok a

module _ {C S A N P I K : Type 0} ⦃keys : Key A⦄ ⦃names_order : Key N⦄ ⦃links : Key C⦄
    ⦃numbers : Key K⦄ (ipfs : Ipfs C S) (names : Names C S ipfs)
    (codecs : Codecs ipfs.Block C A N P) (default_peer : P) (media : Media C S I K)
    (indexes : IndexCodecs ipfs.Block K C) (digest : C → Result Digest) where
  -- The date and time of a content.
  unfoldable pub datetime_of : C → S → Result (DateTime K)
  datetime_of content_cid s =
      and_then (media.user_timestamp content_cid s) (λ t. or_timestamp (media.timestamp_opt t))

  -- `add_content`
  unfoldable pub add_content : C → Action S C
  add_content content_cid = read (datetime_of content_cid) >>= λ datetime.
      read (get_metadata ipfs names codecs default_peer) >>= λ r.
      rust_defluencer.DateTime.insert ipfs indexes.levels datetime r.1.content_index content_cid
      >>= λ i.
          update_metadata ipfs names codecs default_peer r.0 (record r.1 { content_index = i.1 })
          >>= λ _. pure content_cid

  -- The comments of a content are removed with it, where the channel has a comment index.
  unfoldable pub without_comments : C → Option C → Action S (Option C)
  without_comments content_cid none = pure none
  without_comments content_cid (some index) =
      rust_defluencer.Hamt.remove ipfs indexes.nodes indexes.roots digest index content_cid >>= λ r.
      pure (some r.1)

  -- `remove_content`, from where the chronological index has answered.
  unfoldable pub end_removal : C → C × ChannelMetadata C → Bool × Option C → Action S (Option C)
  end_removal content_cid r (false, content_index) = pure none
  end_removal content_cid r (true, content_index) =
      without_comments content_cid r.1.comment_index >>= λ comment_index.
      update_metadata ipfs names codecs default_peer r.0
        (record r.1 { content_index = content_index; comment_index = comment_index })
      >>= λ _. pure (some content_cid)

  -- `remove_content`
  unfoldable pub remove_content : C → Action S (Option C)
  remove_content content_cid = read (datetime_of content_cid) >>= λ datetime.
      read (get_metadata ipfs names codecs default_peer) >>= λ r.
      rust_defluencer.DateTime.remove ipfs indexes.levels datetime r.1.content_index content_cid
      >>= λ i. end_removal content_cid r i

  -- A link, or that of a new empty trie.
  unfoldable pub or_new : Option C → Action S C
  or_new none = dag_put ipfs indexes.roots empty_root
  or_new (some index) = pure index

  -- `comment.origin.expect("Comment Origin")`
  unfoldable pub media_of : C → S → Result C
  media_of comment_cid s = and_then (media.origin comment_cid s) or_panic

  -- `add_comment`, from where the comments of the content are known.
  unfoldable pub add_to_comments :
      C → C → C × ChannelMetadata C → C → Option C → Action S (Option C)
  add_to_comments comment_cid media_cid r index found = or_new found >>= λ comments.
      rust_defluencer.Hamt.insert ipfs indexes.nodes indexes.roots digest comments comment_cid
        comment_cid
      >>= λ comments'.
          rust_defluencer.Hamt.insert ipfs indexes.nodes indexes.roots digest index media_cid
            comments'
          >>= λ index'.
              update_metadata ipfs names codecs default_peer r.0
                (record r.1 { comment_index = some index' })
              >>= λ _. pure (some comment_cid)

  -- `add_comment`
  unfoldable pub add_comment : C → Action S (Option C)
  add_comment comment_cid = read (media_of comment_cid) >>= λ media_cid.
      read (get_metadata ipfs names codecs default_peer) >>= λ r.
      or_new r.1.comment_index >>= λ index.
      read (get ipfs indexes.nodes indexes.roots digest index media_cid) >>= λ found.
      add_to_comments comment_cid media_cid r index found

  -- `remove_comment`, from where the index of comments is known.
  unfoldable pub remove_from_comments :
      C → C → C × ChannelMetadata C → C → Option C → Action S (Option C)
  remove_from_comments comment_cid media_cid r index none = pure none
  remove_from_comments comment_cid media_cid r index (some comments) =
      rust_defluencer.Hamt.remove ipfs indexes.nodes indexes.roots digest comments comment_cid
      >>= λ removed.
          rust_defluencer.Hamt.insert ipfs indexes.nodes indexes.roots digest index media_cid
            removed.1
          >>= λ index'.
              update_metadata ipfs names codecs default_peer r.0
                (record r.1 { comment_index = some index' })
              >>= λ _. pure (some comment_cid)

  unfoldable pub remove_in_index : C → C → C × ChannelMetadata C → Option C → Action S (Option C)
  remove_in_index comment_cid media_cid r none = pure none
  remove_in_index comment_cid media_cid r (some index) =
      read (get ipfs indexes.nodes indexes.roots digest index media_cid) >>= λ found.
      remove_from_comments comment_cid media_cid r index found

  -- `remove_comment`
  unfoldable pub remove_comment : C → Action S (Option C)
  remove_comment comment_cid = read (media_of comment_cid) >>= λ media_cid.
      read (get_metadata ipfs names codecs default_peer) >>= λ r.
      remove_in_index comment_cid media_cid r r.1.comment_index
