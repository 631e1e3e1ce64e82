-- ===== src/Accept/Served.antt =====
-- src/aqua.rs: what the accept loop makes of each connection.
use aqua.Base.{ℕ, ◌+◌, ◌≡◌, refl, false, Option, some, List, [], ◌∷◌, arith}
use aqua.Accept.{
  ErrorKind, connection_refused, connection_aborted, connection_reset, other_kind, IncomingStream,
  Makers, Accepted, conn, failed, Task, spawn_connection, incoming, take_up, serve_loop,
}

module _ (k : Makers) where
  -- Neither of the made services keeps the stream.
  abbrev pub ReleaseStreams : Type 0
  ReleaseStreams =
      (i : IncomingStream k.Stream k.Addr k.Uuid)
      → (k.service_keeps_stream (k.make_service i) ≡ false)
        × (k.connect_service_keeps_stream (k.make_connect_service i) ≡ false)

  -- The tasks that serve what was accepted: one for each connection, in their order. The services of a
  -- task were made for its stream and its id, and share a lock that lies at `lock` or behind, and that
  -- no other task has.
  pub data Serves : List (Accepted k) → ℕ → List (Option (Task k)) → Type 0 where
    all_served : {lock : ℕ} → Serves [] lock []
    serves :
        {accepts : List (Accepted k)} {tasks : List (Option (Task k))} {lock : ℕ}
        (stream : k.Stream) (addr : k.Addr) (t : Task k)
        → t.stream ≡ stream
        → t.service ≡ k.make_service (incoming k stream addr t.client_id lock)
        → t.connect_service ≡ k.make_connect_service (incoming k stream addr t.client_id lock)
        → Serves accepts (lock + 1) tasks
        → Serves (conn stream addr ∷ accepts) lock (some t ∷ tasks)
    goes_on :
        {accepts : List (Accepted k)} {tasks : List (Option (Task k))} {lock : ℕ} (kind : ErrorKind)
        → Serves accepts lock tasks
        → Serves (failed kind ∷ accepts) lock tasks

  -- The seconds that the failures cost: one for each that is not the connection's own
  pub pauses : List (Accepted k) → ℕ
  pauses [] = 0
  pauses (conn stream addr ∷ accepts) = pauses accepts
  pauses (failed other_kind ∷ accepts) = 1 + pauses accepts
  pauses (failed kind ∷ accepts) = pauses accepts

  abbrev task_for : k.Stream → k.Addr → k.Uuid → ℕ → Task k
  task_for stream addr id lock = record {
    service = k.make_service (incoming k stream addr id lock);
    connect_service = k.make_connect_service (incoming k stream addr id lock);
    stream = stream;
    client_id = id;
  }

  take_up_served :
      (stream : k.Stream) (addr : k.Addr) (gen : k.Gen) (lock : ℕ)
      → ReleaseStreams
      → take_up k stream addr gen lock ≡ some (task_for stream addr (k.new_v4 gen).0 lock)
  unfolding take_up spawn_connection
  take_up_served stream addr gen lock release =
      let free = release (incoming k stream addr (k.new_v4 gen).0 lock) in rw (free.0, free.1)

  -- Whatever the listener gives, where the made services do not keep the stream, each connection that is
  -- accepted gets a task of its own, in their order, which has taken the stream out of its `Arc`
  -- without a panic and holds the services made for that connection; a failure ends nothing, and the
  -- loop has slept one second for each that is not a refused, aborted or reset connection.
  pub serve_loop-Serves :
      (accepts : List (Accepted k)) (gen : k.Gen) (lock : ℕ)
      → ReleaseStreams
      → Serves accepts lock (serve_loop k accepts gen lock).tasks
        × ((serve_loop k accepts gen lock).slept ≡ pauses accepts)
  unfolding serve_loop pauses
  serve_loop-Serves [] gen lock release = (all_served, refl)
  serve_loop-Serves (conn stream addr ∷ accepts) gen lock release =
      let id = (k.new_v4 gen).0 in
      let rest = serve_loop-Serves accepts (k.new_v4 gen).1 (lock + 1) release in
      (
        rw (take_up_served stream addr gen lock release)
            (serves stream addr (task_for stream addr id lock) refl refl refl rest.0),
        omega (arith, rest.1),
      )
  serve_loop-Serves (failed connection_refused ∷ accepts) gen lock release =
      let rest = serve_loop-Serves accepts gen lock release in
      (goes_on connection_refused rest.0, omega (arith, rest.1))
  serve_loop-Serves (failed connection_aborted ∷ accepts) gen lock release =
      let rest = serve_loop-Serves accepts gen lock release in
      (goes_on connection_aborted rest.0, omega (arith, rest.1))
  serve_loop-Serves (failed connection_reset ∷ accepts) gen lock release =
      let rest = serve_loop-Serves accepts gen lock release in
      (goes_on connection_reset rest.0, omega (arith, rest.1))
  serve_loop-Serves (failed other_kind ∷ accepts) gen lock release =
      let rest = serve_loop-Serves accepts gen lock release in
      (goes_on other_kind rest.0, omega (arith, rest.1))
