-- ===== src/LinkedData/DateTime.antt =====
-- linked-data/src/indexes/date_time.rs: the levels of the chronological index. `Yearly`, `Monthly`,
-- `Daily`, `Hourly` and `Minutes` are all a map from a number to a link, `Seconds` is a map from a
-- number to a set of links. `K` is the type of the numbers, in order.
use rust_defluencer.Base.{List}

pub record Level (K C : Type 0) : Type 0 where
  pub entries : List (K × C)

pub record Seconds (K C : Type 0) : Type 0 where
  pub second : List (K × List C)
