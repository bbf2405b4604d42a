-- ===== src/Lib.antt =====
-- rust-defluencer: channels, indexes and trees over IPFS, modelled and proved.
--
-- The library `defluencer` keeps all its data as blocks of an IPFS node, which are never changed: an
-- operation loads the blocks that it needs, stores new ones, and gives back the link to the new
-- root. A channel (defluencer/src/channel) is a name that resolves to a block of metadata, which
-- links to the lists and indexes of the channel. The indexes (defluencer/src/indexing) are a hash
-- array mapped trie, a chronological index, and the ordered trees. The types of the blocks are in
-- linked-data, the client of the IPFS node in ipfs-api.
--
-- Parts:
-- - Base: Boolean tests, lists over the native numbers, results and actions with their rule for
--   sequences (Base/Outcome), orders (Base/Key), and the standard library's sets and maps as lists
--   in order (Base/Sets).
-- - Ipfs: the IPFS node as a parameter: a state, `put_block` and `get_block`, with the laws that a
--   block that was put can be read back and that none is lost. `dag_put` and `dag_get` of
--   ipfs-api/src/lib.rs are these with the codec of a type. Ipfs/Growing is about the
--   actions that lose no block, Ipfs/Memory is an instance to run.
-- - LinkedData: the types of the blocks, of linked-data/src/indexes, linked-data/src/channel and
--   linked-data/src/media/video.rs.
-- - Hamt: defluencer/src/indexing/hamt.rs; `set` is `set_key` here, the others keep their names.
--   Hamt/Slots, Buckets, Find, Reads and Growth have the lemmas on nodes and lookups, Hamt/Insert
--   and Index are about insertion, Hamt/Remove removal, Hamt/Depth the end of the digest.
-- - DateTime: defluencer/src/indexing/datetime.rs. DateTime/Contents says what an index holds,
--   DateTime/Insert what an insertion changes about it, DateTime/Remove and Removal what a removal
--   does. DateTime/Paths has two times as paths through the levels, DateTime/Growth that no block is
--   lost.
-- - Channel: the operations of defluencer/src/channel/mod.rs on the lists, the live settings and the
--   identity. Channel/Lists reads who is banned, a moderator or followed; Channel/Banning,
--   Moderating and Following are about the operations on them. Channel/Media has the operations on
--   contents and comments, which put the chronological index and the trie together.
-- - Archivist: the actor of cli/src/actors/archivist.rs that files the segments of a live stream;
--   Archivist/Counts is about how much it has collected, Archivist/Flush about the last step.
--   Archivist/Videos reads the segments back, Archivist/Contents is about what is read.
-- - Prolly: of defluencer/src/indexing/ordered_trees/prolly, the nodes (Prolly/Node, of node.rs),
--   their chunking (Prolly/Split, of node.rs), the shares of a batch (Prolly/Batch, of iterators.rs),
--   the reads of a tree (Prolly/Tree, of tree.rs), the insertion and the removal of a batch
--   (Prolly/Insertion and Prolly/Removal, of tree.rs), its handle (Prolly/Handle, of mod.rs), and their
--   IPLD form with that of the configuration and of the handle (Prolly/Ipld, of deserialization.rs and
--   config.rs).
--   Prolly/Tree/Reads has the descent for a single key that a batch is compared with, on the
--   lemmas of Prolly/Tree/Batches. Prolly/Tree/Contents has the tree as one finite map in order
--   (Prolly/Tree/Ordered), for the trees of Prolly/Tree/Ranges.
-- - Ipns: ipns-records/src/lib.rs. Ipns/Verify is about `verify` and `new`, Ipns/Parts about
--   `from_parts`.
-- - VarInt: `VarInt` of defluencer/src/utils.rs.
--
-- A function that returns a Rust `Result` and may panic returns a `Result` with three constructors;
-- one that talks to the IPFS node takes and returns its state too, also when it fails. Codecs, hash
-- functions, name resolution and pinning belong to other crates or to the node, and are parameters.
--
-- Fuel: the recursion of the trie is bounded by `levels`, 33, one more than the bytes of a digest,
-- where the source panics at an index past its end. The loops of `split` have fuel that is proved
-- to be enough where it exceeds the number of keys, and the iterators for search and insertion where
-- it exceeds the number of items. That for removal has one step more than keys. The
-- fuel of `batch_get`, `get` and `stream_pairs` bounds the levels of the tree, which their theorems
-- take as given. The fuel of `batch_insert` and `batch_remove` bounds the levels of the tree, for the
-- first also the branches put on top of it, and the loops of `split`. All other recursions are structural.
--
-- Not modelled: the streams over the trie and the chronological index; the
-- `boundary` of a prolly tree, which is any function in the model of `split`, and the ranges of its
-- branches; the Merkle search tree; the creation of a channel and the update of an identity; the other
-- actors, the command line and the server of cli; users, signatures and DAG-JOSE; the log index, which is commented out of the build.
pub mod Base
pub mod Ipfs
pub mod LinkedData
pub mod VarInt
pub mod Hamt
pub mod DateTime
pub mod Channel
pub mod Archivist
pub mod Ipns
pub mod Prolly
