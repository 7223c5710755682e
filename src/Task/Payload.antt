-- ===== src/Task/Payload.antt =====
-- The JSON values that the payloads of a task have, and pkg/task's outcomes.
use testground.Base.{String, List}

pub data Outcome : Type 0 where
  unknown success failure canceled : Outcome

pub data Json : Type 0 where
  null : Json
  object : String → Json  -- an object, by its text
  result_object : Outcome → String → Json  -- the object of a runner's result
  strings : List String → Json
  scalar : String → Json
