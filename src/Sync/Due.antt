-- ===== src/Sync/Due.antt =====
-- What is still to come of a message for the listening coroutine of websocket_client.py and
-- model_cluster.py: which tasks it waits for, and what follows them.
use model_runner_client.Base.{
  ℕ, zero, suc, ◌-◌, ◌&&◌, ◌||◌, Option, none, some, List, [], ◌∷◌, String, if◌then◌else◌, is_some,
  length,
}
use model_runner_client.Base.Eq.{◌==◌, string_equality, option_equality}
use model_runner_client.Cluster.Updates.{ModelUpdate, update_model_runs}
use model_runner_client.Cluster.World
use model_runner_client.Cluster.World.{World, update, some_tasks}
use model_runner_client.Sync.{
  Decoded, message, Listener, receiving, updating, some_failed, all_finished,
}
use model_runner_client.Sync.Steps.{Input, receives, gathers}

-- The tasks that a message has started, by their places, and what is to come when they have finished:
-- the second part of an `init` event, and nothing of an `update` event.
abbrev pub Due : Type 0
Due = Option (Option (List ModelUpdate) × List ℕ)

abbrev pub rest_of : Option String → List ModelUpdate → Option (List ModelUpdate)
rest_of event_type us = if event_type == some "init" then some us else none

-- `k` numbers from `n` on.
abbrev pub count_from : ℕ → ℕ → List ℕ
count_from n zero = []
count_from n (suc k) = n ∷ count_from (suc n) k

-- The places of the tasks that an update adds to the world.
abbrev pub started_by : List ModelUpdate → World → List ℕ
started_by us w =
    count_from (length w.tasks) (length (World.step (update us) w).tasks - length w.tasks)

-- What is due of a message, if its update raises no exception.
abbrev pub message_due : Decoded → World → Due
message_due (message event_type (some us)) w =
    if (event_type == some "init" || event_type == some "update")
      && is_some (update_model_runs us w.cluster).1
    then some (rest_of event_type us, started_by us w)
    else none
message_due _ w = none

-- What is still due when one of the tasks has ended.
abbrev pub still_due : Due → World → Due
still_due none w = none
still_due (some (rest, is)) w =
    if some_failed is w.tasks || all_finished is w.tasks then none else some (rest, is)

-- What is due after a step.
abbrev pub due_after : Listener → Input → Due → World → Due
due_after (receiving sync) (receives d) due w = message_due d w
due_after l gathers due w = still_due due w
due_after l x due w = due

-- What the coroutine waits for.
abbrev pub awaited : Listener → Due
awaited (updating sync rest is) = some (rest, is)
awaited l = none
