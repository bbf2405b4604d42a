-- ===== src/LinkedData.antt =====
-- linked-data/src: the types of the blocks that the indexes and the channels are made of.
pub mod Hamt
pub mod Channel
pub mod DateTime
pub mod Video
