-- ===== src/Prolly/Insertion/Large.antt =====
-- What `batch_insert` does with pairs that are too large.
use rust_defluencer.Base.Key.{Key}
use rust_defluencer.Ipfs.{Ipfs}
