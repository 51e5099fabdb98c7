-- ===== src/Store/Connection.antt =====
-- `connect` of web/nasa_web/static/js/store.js: the socket's handlers, and the growing delay.
use nasa_cpp.Base.{
  ℕ, zero, suc, ◌*◌, ◌≤◌, ◌≡◌, refl, min, Bool, true, false, List, [], ◌∷◌, ◌++◌, arith, All,
}
use nasa_cpp.Store.{Store, Event, connection}

-- `retry` is the variable of `connect`, in milliseconds.
pub record Link (R : Type 0) : Type 0 where
  pub store : Store R
  pub retry : ℕ

pub data SocketEvent : Type 0 where
  opened closed : SocketEvent

-- What a handler leaves behind: the state, the delay of a `setTimeout(open, …)` and what it emits.
pub record Handled (R : Type 0) : Type 0 where
  pub link : Link R
  pub timeouts : List ℕ
  pub events : List Event

abbrev pub first_retry : ℕ
first_retry = 1000

abbrev pub closures : ℕ → List SocketEvent
closures zero = []
closures (suc k) = closed ∷ closures k

-- The delays of `k` failures in a row, from `r` milliseconds on.
abbrev pub doubled : ℕ → ℕ → List ℕ
doubled r zero = []
doubled r (suc k) = min r 15000 ∷ doubled (r * 2) k

abbrev pub stands : Bool → List SocketEvent → Bool
stands up [] = up
stands up (opened ∷ es) = stands true es
stands up (closed ∷ es) = stands false es

module _ {R : Type 0} where
  -- `ws.onopen` and `ws.onclose`; `ws.onerror` closes the socket.
  unfoldable pub on_socket : Link R → SocketEvent → Handled R
  on_socket l opened = record {
    link = record { store = record (l.store) { ws_connected = true }; retry = first_retry };
    timeouts = [];
    events = connection ∷ [];
  }
  on_socket l closed = record {
    link = record {
      store = record (l.store) { ws_connected = false };
      retry = min (l.retry * 2) 15000;
    };
    timeouts = l.retry ∷ [];
    events = connection ∷ [];
  }

  -- A history of the socket: the link at its end, and all delays in order.
  unfoldable pub run_socket : Link R → List SocketEvent → Link R × List ℕ
  run_socket l [] = (l, [])
  run_socket l (e ∷ es) =
      let h = on_socket l e in let (l', later) = run_socket h.link es in (l', h.timeouts ++ later)

  -- From a link whose delay is in range, every delay before a new attempt is between one second and
  -- fifteen seconds, whatever the socket does, and so is the delay kept at the end.
  run_socket_delays :
      (l : Link R) (es : List SocketEvent)
      → (1000 ≤ l.retry) × (l.retry ≤ 15000)
      → All (λ d. (1000 ≤ d) × (d ≤ 15000)) (run_socket l es).1
        × (1000 ≤ (run_socket l es).0.retry)
        × ((run_socket l es).0.retry ≤ 15000)
  unfolding run_socket on_socket
  run_socket_delays l [] h = (tt, h.0, h.1)
  run_socket_delays l (opened ∷ es) h =
      run_socket_delays (on_socket l opened).link es (omega arith, omega arith)
  run_socket_delays l (closed ∷ es) h =
      let (later, low, high) =
        run_socket_delays (on_socket l closed).link es (omega arith, omega arith) in
      ((h, later), low, high)

  failures_doubled :
      (l : Link R) (r k : ℕ) → l.retry ≡ min r 15000 → (run_socket l (closures k)).1 ≡ doubled r k
  unfolding run_socket on_socket
  failures_doubled l r zero e = refl
  failures_doubled l r (suc k) e =
      cc (failures_doubled (on_socket l closed).link (r * 2) k (omega arith))

  -- Once a connection has stood, `k` failures in a row wait 1000, 2000, 4000, … milliseconds, each
  -- twice the one before and at most 15000.
  pub backoff_after_open :
      (l : Link R) (k : ℕ) → (run_socket l (opened ∷ closures k)).1 ≡ doubled 1000 k
  unfolding run_socket on_socket
  backoff_after_open l k = failures_doubled (on_socket l opened).link 1000 k (omega arith)

  -- The page shows the server as connected exactly while the last event of the socket was an open.
  run_socket_connected :
      (l : Link R) (es : List SocketEvent)
      → (run_socket l es).0.store.ws_connected ≡ stands l.store.ws_connected es
  unfolding run_socket on_socket
  run_socket_connected l [] = refl
  run_socket_connected l (opened ∷ es) = run_socket_connected (on_socket l opened).link es
  run_socket_connected l (closed ∷ es) = run_socket_connected (on_socket l closed).link es
