-- ===== src/Server/Listener.antt =====
-- The listener of a TCP service (rathole/src/server.rs: tcp_listen_and_send). `V` is the type of
-- visitors' connections.
pub mod Served
use rathole_with_proxy.Base.{
  ℕ, zero, suc, Bool, true, false, Option, none, some, List, [], ◌∷◌, ◌++◌,
}
use rathole_with_proxy.Server.Run.{Backoff}

-- What the `select!` meets: a visitor, an error of the listener, or the signal to shut down.
pub data Event (V : Type 0) : Type 0 where
  visitor : V → Event V
  accept_failed shutdown : Event V

-- The visitors that have gone to the pool, the data channels that have been asked for, how many more
-- requests the control channel takes, and the state of the back-off.
pub record Listener (V B : Type 0) : Type 0 where
  pub visitors : List V
  pub requests : ℕ
  pub asks : ℕ
  pub backoff : B

module _ {V : Type 0} (b : Backoff) where
  -- For every visitor a data channel is asked for first; if that fails, the visitor is dropped and
  -- the loop ends.
  abbrev pub on_visitor : V → ℕ → Listener V b.State → Listener V b.State × Bool
  on_visitor v zero l = (l, false)
  on_visitor v (suc n) l = (
    record {
      visitors = l.visitors ++ v ∷ [];
      requests = suc l.requests;
      asks = n;
      backoff = b.reset l.backoff;
    },
    true,
  )

  abbrev pub back_off : Option (ℕ × b.State) → Listener V b.State → Listener V b.State × Bool
  back_off none l = (l, false)
  back_off (some (d, state)) l = (record l { backoff = state }, true)

  -- One turn of the loop, and whether it goes on.
  unfoldable pub step : Event V → Listener V b.State → Listener V b.State × Bool
  step (Event.visitor v) l = on_visitor v l.asks l
  step Event.accept_failed l = back_off (b.next_backoff l.backoff) l
  step Event.shutdown l = (l, false)

  abbrev pub go_on :
      (Listener V b.State → Listener V b.State) → Listener V b.State × Bool → Listener V b.State
  go_on rest (l, true) = rest l
  go_on rest (l, false) = l

  unfoldable pub listen : List (Event V) → Listener V b.State → Listener V b.State
  unfolding step
  listen [] l = l
  listen (e ∷ es) l = go_on (listen es) (step e l)

  -- `bound` is whether the address could be bound before the shutdown.
  unfoldable pub tcp_listen_and_send :
      (bound : Bool) → (asks : ℕ) (initial : b.State) → List (Event V) → Listener V b.State
  unfolding listen
  tcp_listen_and_send false asks initial es = record {
    visitors = [];
    requests = 0;
    asks = asks;
    backoff = initial;
  }
  tcp_listen_and_send true asks initial es =
      listen es (record { visitors = []; requests = 0; asks = asks; backoff = initial })
