-- ===== src/Accept.antt =====
-- src/aqua.rs: the loop that accepts connections. src/aqua/connection/request.rs: what it tells the
-- services of a connection.
pub mod Served
use aqua.Base.{
  ℕ, ◌+◌, ◌≡◌, Bool, true, false, not, ◌&&◌, Option, none, some, List, [], ◌∷◌, if◌then◌else◌,
}

-- `io::ErrorKind`, as far as `is_connection_error` looks
pub data ErrorKind : Type 0 where
  connection_refused connection_aborted connection_reset other_kind : ErrorKind

unfoldable pub is_connection_error : ErrorKind → Bool
is_connection_error connection_refused = true
is_connection_error connection_aborted = true
is_connection_error connection_reset = true
is_connection_error other_kind = false

-- What comes from outside: the sockets, `Uuid::new_v4`, and the services that the two makers make.
-- `keeps_stream` tells whether a service still holds the `Arc` of the stream that it was made with.
-- `mqtt_id` is the place of a lock, which each `RwLock::new` takes fresh.
pub record IncomingStream (Stream Addr Uuid : Type 0) : Type 0 where
  pub tcp_stream : Stream
  pub addr : Addr
  pub client_id : Uuid
  pub mqtt_id : ℕ

pub record Makers : Type 1 where
  pub Stream : Type 0
  pub Addr : Type 0
  pub Uuid : Type 0
  pub Gen : Type 0
  pub new_v4 : Gen → Uuid × Gen
  pub Service : Type 0
  pub ConnectService : Type 0
  pub make_service : IncomingStream Stream Addr Uuid → Service
  pub make_connect_service : IncomingStream Stream Addr Uuid → ConnectService
  pub service_keeps_stream : Service → Bool
  pub connect_service_keeps_stream : ConnectService → Bool

module _ (k : Makers) where
  -- What `listener.accept()` comes to
  pub data Accepted : Type 0 where
    conn : k.Stream → k.Addr → Accepted
    failed : ErrorKind → Accepted

  -- The connection, with the seconds slept
  unfoldable pub tcp_accept : Accepted → Option (k.Stream × k.Addr) × ℕ
  unfolding is_connection_error
  tcp_accept (conn stream addr) = (some (stream, addr), 0)
  tcp_accept (failed kind) = if is_connection_error kind then (none, 0) else (none, 1)

  -- A spawned task that serves a connection
  pub record Task : Type 0 where
    pub service : k.Service
    pub connect_service : k.ConnectService
    pub stream : k.Stream
    pub client_id : k.Uuid

  -- Where the loop stands: the tasks so far, of which `none` panicked at `Arc::try_unwrap(..).unwrap()`,
  -- the generator, the next place for a lock, and the seconds slept
  pub record ServeState : Type 0 where
    pub tasks : List (Option Task)
    pub gen : k.Gen
    pub next_lock : ℕ
    pub slept : ℕ

  unfoldable pub spawn_connection : k.Stream → k.Service → k.ConnectService → k.Uuid → Option Task
  spawn_connection stream service connect_service client_id =
      if k.service_keeps_stream service
      then none
      else if k.connect_service_keeps_stream connect_service
      then none
      else some (record {
        service = service;
        connect_service = connect_service;
        stream = stream;
        client_id = client_id;
      })

  abbrev pub incoming : k.Stream → k.Addr → k.Uuid → ℕ → IncomingStream k.Stream k.Addr k.Uuid
  incoming stream addr client_id lock = record {
    tcp_stream = stream;
    addr = addr;
    client_id = client_id;
    mqtt_id = lock;
  }

  -- One connection, as the loop takes it up; a task goes before those of later connections.
  unfoldable pub take_up : k.Stream → k.Addr → k.Gen → ℕ → Option Task
  unfolding spawn_connection
  take_up stream addr gen lock =
      let client_id = (k.new_v4 gen).0 in
      spawn_connection stream (k.make_service (incoming stream addr client_id lock))
        (k.make_connect_service (incoming stream addr client_id lock)) client_id

  abbrev pub after_accept :
      Option (k.Stream × k.Addr) × ℕ → k.Gen → ℕ → (k.Gen → ℕ → ServeState) → ServeState
  after_accept (none, slept) gen lock rest =
      let r = rest gen lock in record r { slept = slept + r.slept }
  after_accept (some (stream, addr), slept) gen lock rest =
      let r = rest (k.new_v4 gen).1 (lock + 1) in
      record r { tasks = take_up stream addr gen lock ∷ r.tasks; slept = slept + r.slept }

  -- The loop, over what the listener gives; the state is where it stands when that ends.
  unfoldable pub serve_loop : List Accepted → k.Gen → ℕ → ServeState
  unfolding tcp_accept take_up
  serve_loop [] gen lock = record { tasks = []; gen = gen; next_lock = lock; slept = 0 }
  serve_loop (a ∷ accepts) gen lock = after_accept (tcp_accept a) gen lock (serve_loop accepts)
