-- ===== src/Gateway/Locks.antt =====
-- The lock of the table of tunnels, `AppState::tunnels`, and the tasks of the public server that take it
-- (rathole/src/main.rs: tunnel, handle_socket and the clean-up task; rathole/src/proxy.rs:
-- proxy_handler and choose_best_tunnel). A task is here the list of what it still does with the lock
-- and with the pending responses; what it reads and writes under the lock is in the modules of those
-- functions. The lock is tokio's, a parameter.
pub mod Blocked
pub mod Stuck
use rathole_with_proxy.Base.{
  ℕ, zero, suc, ◌≡◌, ◌≢◌, Bool, true, false, ◌||◌, Option, none, some, List, [], ◌∷◌, ◌++◌, Text,
  text_eq, ◌==◌, eqb, if◌then◌else◌,
}

pub data Want : Type 0 where
  read write : Want

-- A tokio `RwLock` as its tasks see it, which are numbers. `next_writer` is the task that is the
-- next to get the lock, if that is a writer. While a task has the lock, the writer waits, and
-- whoever asks later waits behind it. `give_back` drops a guard, `leave` a place in the queue; of a
-- `free` lock nobody has a guard and nobody waits.
pub record RwLock : Type 1 where
  pub State : Type 0
  pub ask : ℕ → Want → State → State
  pub give_back : ℕ → State → State
  pub leave : ℕ → State → State
  pub free : State
  pub holds : ℕ → State → Bool
  pub next_writer : State → Option ℕ
  pub holds-ask :
      (k m n j : ℕ) (w : Want) (s : State)
      → holds k s ≡ true
      → next_writer s ≡ some m
      → holds j (ask n w s) ≡ holds j s
  pub next_writer-ask :
      (k m n : ℕ) (w : Want) (s : State)
      → holds k s ≡ true
      → next_writer s ≡ some m
      → next_writer (ask n w s) ≡ some m
  pub holds-give_back :
      (k m n j : ℕ) (s : State)
      → holds k s ≡ true
      → k ≢ n
      → next_writer s ≡ some m
      → holds j (give_back n s) ≡ (if eqb n j then false else holds j s)
  pub next_writer-give_back :
      (k m n : ℕ) (s : State)
      → holds k s ≡ true
      → k ≢ n
      → next_writer s ≡ some m
      → next_writer (give_back n s) ≡ some m
  pub holds-leave :
      (k m n j : ℕ) (s : State)
      → holds k s ≡ true
      → m ≢ n
      → next_writer s ≡ some m
      → holds j (leave n s) ≡ holds j s
  pub next_writer-leave :
      (k m n : ℕ) (s : State)
      → holds k s ≡ true
      → m ≢ n
      → next_writer s ≡ some m
      → next_writer (leave n s) ≡ some m
  pub holds-free : (k j : ℕ) (w : Want) → holds j (ask k w free) ≡ eqb k j
  pub give_back-free : (k : ℕ) (w : Want) → give_back k (ask k w free) ≡ free
  pub holds-behind_reader :
      (k m j : ℕ) → holds j (ask m Want.write (ask k Want.read free)) ≡ eqb k j
  pub next_writer-behind_reader :
      (k m : ℕ) → next_writer (ask m Want.write (ask k Want.read free)) ≡ some m

-- What a task does next: it asks for the lock, has got it, gives it back, waits for the response to
-- a request, hands one over, or something else that ends by itself.
pub data Op : Type 0 where
  ask obtain : Want → Op
  release work : Op
  await_response respond : (request_id : Text) → Op

-- `state.tunnels.read().await` or `write()` around some work.
abbrev pub locked : Want → List Op → List Op
locked w ops = Op.ask w ∷ Op.obtain w ∷ ops ++ Op.release ∷ []

-- A handler that waits for a response, with the lock.
abbrev pub await_tunnel : (request_id : Text) → List Op
await_tunnel request_id = Op.await_response request_id ∷ Op.release ∷ []

-- The route `/tunnel`: the guard of the scrutinee lives as long as the body of the `if let`. `none`
-- is a call that returns before it waits.
abbrev pub tunnel_ops : Option Text → List Op
tunnel_ops none = locked Want.read (Op.work ∷ []) ++ locked Want.read (Op.work ∷ [])
tunnel_ops (some request_id) =
    locked Want.read (Op.work ∷ [])
    ++ Op.ask Want.read ∷ Op.obtain Want.read ∷ Op.work ∷ Op.work ∷ await_tunnel request_id

-- A turn of the clean-up task, and the registration in handle_socket.
abbrev pub clean_up_ops : List Op
clean_up_ops = Op.work ∷ locked Want.write (Op.work ∷ [])

abbrev pub register_ops : List Op
register_ops = Op.work ∷ locked Want.write (Op.work ∷ [])

-- proxy_handler without a cookie of a tunnel, or with one whose tunnel serves the request or not. In
-- the scrutinee of the cookie's `if let` the guard lives while that tunnel answers, which has a time
-- limit; choose_best_tunnel gives it back before.
abbrev pub proxy_ops : (serves : Option Bool) → List Op
proxy_ops none = locked Want.read (Op.work ∷ []) ++ Op.work ∷ []
proxy_ops (some false) =
    locked Want.read (Op.work ∷ []) ++ locked Want.read (Op.work ∷ []) ++ Op.work ∷ []
proxy_ops (some true) = locked Want.read (Op.work ∷ Op.work ∷ [])

-- A response that a socket receives.
abbrev pub respond_ops : Text → List Op
respond_ops request_id = Op.respond request_id ∷ []

unfoldable pub task : ℕ → List (List Op) → List Op
task n [] = []
task zero (ops ∷ ts) = ops
task (suc n) (ops ∷ ts) = task n ts

unfoldable pub set_task : ℕ → List Op → List (List Op) → List (List Op)
set_task n ops [] = []
set_task zero ops (t ∷ ts) = ops ∷ ts
set_task (suc n) ops (t ∷ ts) = t ∷ set_task n ops ts

unfoldable pub member : Text → List Text → Bool
member r [] = false
member r (s ∷ ss) = r == s || member r ss

-- The turn of a task, a new one, or the end of one that is dropped where it stands, as hyper does with
-- a handler whose caller disconnects.
pub data Event : Type 0 where
  turn cancel : ℕ → Event
  spawn : List Op → Event

module _ (l : RwLock) where
  -- The tasks, the lock, and the requests that have been answered.
  pub record Tasks : Type 0 where
    pub tasks : List (List Op)
    pub lock : l.State
    pub answered : List Text

  abbrev pub advance : ℕ → List Op → Tasks → Tasks
  advance n ops s = record s { tasks = set_task n ops s.tasks }

  -- The next step of a task, or nothing while it waits.
  unfoldable pub act : ℕ → List Op → Tasks → Tasks
  unfolding set_task member
  act n [] s = s
  act n (Op.ask w ∷ ops) s = record (advance n ops s) { lock = l.ask n w s.lock }
  act n (Op.obtain w ∷ ops) s = if l.holds n s.lock then advance n ops s else s
  act n (Op.release ∷ ops) s = record (advance n ops s) { lock = l.give_back n s.lock }
  act n (Op.work ∷ ops) s = advance n ops s
  act n (Op.await_response r ∷ ops) s = if member r s.answered then advance n ops s else s
  act n (Op.respond r ∷ ops) s = record (advance n ops s) { answered = r ∷ s.answered }

  -- The guard of the task goes with it, and its place in the queue.
  abbrev pub drop_task : ℕ → Tasks → Tasks
  drop_task n s = record (advance n [] s) { lock = l.give_back n (l.leave n s.lock) }

  unfoldable pub step : Event → Tasks → Tasks
  unfolding act task
  step (Event.turn n) s = act n (task n s.tasks) s
  step (Event.cancel n) s = drop_task n s
  step (Event.spawn ops) s = record s { tasks = s.tasks ++ ops ∷ [] }

  unfoldable pub run : List Event → Tasks → Tasks
  unfolding step
  run [] s = s
  run (e ∷ es) s = run es (step e s)
