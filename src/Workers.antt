-- ===== src/Workers.antt =====
-- leira/workers/base.py: the protocol of workers, one invocation, and the reference workers.
use leira.Prelude.{String, Bool, true, false, Option, none, some, [], ◌∷◌, ◌<>◌}
use leira.Value.{Value, Fields, str, dict, end, entries}

pub record WorkerResult : Type 0 where
  pub success : Bool
  pub outputs : Value
  pub error_type : Option String
  pub error_message : String

-- What a call of `worker.invoke` may do: return a `WorkerResult`, return something of another
-- type (its name is kept), or raise an exception (its text is kept).
pub data Invocation : Type 0 where
  returned : WorkerResult → Invocation
  returned_other : (type_name : String) → Invocation
  raised : (message : String) → Invocation

-- `name` is null for a worker without one.
pub record Worker : Type 0 where
  pub name : Value
  pub invoke : Fields → Invocation

abbrev pub unexpected : String → WorkerResult
unexpected message = record {
  success = false;
  outputs = dict end;
  error_type = some "UNEXPECTED";
  error_message = message;
}

-- `invoke_worker`
unfoldable pub invoke_worker : Worker → Fields → WorkerResult
invoke_worker worker inputs = elim (worker.invoke inputs) [
  | returned r ↦ r
  | returned_other type_name ↦
      unexpected ("worker.invoke returned " <> type_name <> ", not WorkerResult")
  | raised message ↦ unexpected message
]

-- The reference workers.
abbrev pub echo_worker : Worker
echo_worker = record { name = str "EchoWorker"; invoke = echo }
  where
    echo : Fields → Invocation
    echo inputs = returned (record {
      success = true;
      outputs = dict (entries (("echo", dict inputs) ∷ []));
      error_type = none;
      error_message = "";
    })

abbrev pub failing_worker : Worker
failing_worker = record { name = str "FailingWorker"; invoke = fail }
  where
    fail : Fields → Invocation
    fail inputs = returned (record {
      success = false;
      outputs = dict end;
      error_type = some "FAILURE";
      error_message = "simulated";
    })

abbrev pub exploding_worker : Worker
exploding_worker = record { name = str "ExplodingWorker"; invoke = explode }
  where
    explode : Fields → Invocation
    explode inputs = raised "simulated explosion"
