-- ===== src/Core/Row.antt =====
-- crates/core/src/row.rs: the rows of a resource list and the events of a watch.
use roder.Prelude.{String, Bool, Option, List}

pub data RowStatus : Type 0 where
  ok pending warn error done unknown : RowStatus

pub data Trend : Type 0 where
  flat up down : Trend

pub record ResourceRow : Type 0 where
  pub uid : String
  pub namespace : Option String
  pub name : String
  pub created : Option String
  pub cells : List String
  pub trends : List Trend
  pub status : RowStatus
  pub suspended : Bool
  pub labels : List (String × String)

pub data WatchEvent : Type 0 where
  snapshot : List String → List ResourceRow → WatchEvent
  applied : ResourceRow → WatchEvent
  deleted : String → WatchEvent
  forbidden : String → WatchEvent
  error : String → WatchEvent
