-- ===== src/LinkedData/Video.antt =====
-- linked-data/src/media/video.rs: the nodes that give each second of a stream its place, by links `C`.
use rust_defluencer.Base.{List}

pub record Second (C : Type 0) : Type 0 where
  pub link_to_video : C
  pub links_to_chat : List C

pub record Minute (C : Type 0) : Type 0 where
  pub links_to_seconds : List C

pub record Hour (C : Type 0) : Type 0 where
  pub links_to_minutes : List C

pub record Day (C : Type 0) : Type 0 where
  pub links_to_hours : List C

pub record Timecode (C : Type 0) : Type 0 where
  pub timecode : C
