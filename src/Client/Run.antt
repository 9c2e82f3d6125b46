-- ===== src/Client/Run.antt =====
-- The client while it runs (rathole/src/client.rs: Client::run, and the task of a control channel in
-- ControlChannelHandle::new, which connects again after an error).
pub mod Reload
pub mod Retrying
use rathole_with_proxy.Base.{
  ℕ, Bool, true, false, Option, none, some, List, [], ◌∷◌, ltb, if◌then◌else◌,
}
use rathole_with_proxy.Config.{ClientConfig}
use rathole_with_proxy.Watcher.{ConfigChange}
use rathole_with_proxy.Client.{Client, start, handle_hot_reload}
use rathole_with_proxy.Server.Run.{Backoff}

-- What the `select!` of Client::run meets: the signal to shut down (or its sender is gone), or a
-- change.
pub data Event : Type 0 where
  shutdown : Event
  update : Option ConfigChange → Event

abbrev pub on_update : Option ConfigChange → Client → Client
on_update none c = c
on_update (some e) c = handle_hot_reload e c

-- The loop of Client::run; a shutdown drains the handles.
unfoldable pub wait : List Event → Client → Client
wait [] c = c
wait (Event.shutdown ∷ es) c = record c { service_handles = [] }
wait (Event.update o ∷ es) c = wait es (on_update o c)

unfoldable pub run : ClientConfig → List Event → Client
unfolding start wait
run config es = wait es (start config)

-- How one ControlChannel::run ends: well, with an error after some nanoseconds (`shut` is whether the
-- handle is gone or has sent the signal by then), or with a panic.
pub data Attempt : Type 0 where
  ended panicked : Attempt
  failed : (shut : Bool) (elapsed : ℕ) → Attempt

-- How the task stands.
pub data Status : Type 0 where
  trying done dead : Status

-- The delays that it has waited, and the state of the back-off.
pub record Retry (B : Type 0) : Type 0 where
  pub delays : List ℕ
  pub backoff : B
  pub status : Status

abbrev pub three_seconds : ℕ
three_seconds = 3_000_000_000

module _ (b : Backoff) where
  abbrev pub prepend : ℕ → Retry b.State → Retry b.State
  prepend d r = record r { delays = d ∷ r.delays }

  -- With the next delay, or the panic of a policy that gives up.
  abbrev pub delay : Option (ℕ × b.State) → b.State → (b.State → Retry b.State) → Retry b.State
  delay none state rest = record { delays = []; backoff = state; status = Status.dead }
  delay (some (d, next)) state rest = prepend d (rest next)

  -- After three seconds of work the back-off starts again.
  abbrev pub settle : ℕ → b.State → b.State
  settle elapsed state = if ltb three_seconds elapsed then b.reset state else state

  unfoldable pub retry : List Attempt → b.State → Retry b.State
  retry [] state = record { delays = []; backoff = state; status = Status.trying }
  retry (Attempt.ended ∷ rest) state = record { delays = []; backoff = state; status = Status.done }
  retry (Attempt.panicked ∷ rest) state = record {
    delays = [];
    backoff = state;
    status = Status.dead;
  }
  retry (Attempt.failed true elapsed ∷ rest) state = record {
    delays = [];
    backoff = state;
    status = Status.done;
  }
  retry (Attempt.failed false elapsed ∷ rest) state =
      delay (b.next_backoff (settle elapsed state)) (settle elapsed state) (retry rest)
