-- ===== src/Broker/System/Invariant.antt =====
-- What holds in every state of the broker.
use aqua.Base.{◌≡◌, List, [], ◌∷◌, ◌++◌, All, arith, if_cases, subst}
use aqua.Bytes.{Bytes}
use aqua.Coder.ControlPacket.{ControlPacket, connect}
use aqua.Session as Session
use aqua.Session.{SessionManager, register_client_id, register_mqtt_id, set_protocol_version}
use aqua.Retain as Retain
use aqua.Broker.State.{Outside, Broker, Task}
use aqua.Broker.Delivery.{run_task}
use aqua.Broker.Delivery.Received.{message_of}
use aqua.Broker.Service.{serve}
use aqua.Broker.Service.Keeps.{serve-keeps}
use aqua.Broker.ConnectService.{is_supported, accept_client, serve_connect, Connected}
use aqua.Broker.System.{
  System, start, accept, connected, requested, ran, accepts, connects, requests, runs, takes,
  Reachable, starts, next,
}
use aqua.Broker.System.Sessions.{run_task-manager}
use aqua.Broker.System.Messages.{
  IsFull, StagedFull, TasksFull, stage-StagedFull, commit-StagedFull, drop-StagedFull,
}
use aqua.Broker.System.Kept.{Kept, serve-Kept, run_task-Kept}

module _ (x : Outside) where
  abbrev pub IsSound : Broker x → Type 0
  IsSound b = StagedFull x b.manager × Kept x b

  serve-IsSound :
      (b : Broker x) (name : Bytes) (packet : ControlPacket)
      → IsSound b
      → IsSound (serve x b name packet).0
  serve-IsSound b name packet s = (
    serve-keeps x (StagedFull x) IsFull (λ p full. full) (stage-StagedFull x) (commit-StagedFull x)
        (drop-StagedFull x) b name packet (λ t p e. (s.1.0 t p e).0) s.0,
    serve-Kept x b name packet s.0 s.1,
  )

  serve_connect-IsSound :
      (b : Broker x) (u : x.session.Uuid) (name : Bytes) (packet : ControlPacket)
      → IsSound b
      → IsSound (serve_connect x b u name packet).0
  unfolding serve_connect accept_client register_mqtt_id set_protocol_version
  serve_connect-IsSound b u name (connect p) s =
      if_cases {A = Connected x} (λ r. IsSound r.0) (is_supported p.protocol_name p.protocol_ver) _
        _ (λ supported. s) (λ other. s)
  serve_connect-IsSound b u name packet s = s

  -- A task that is taken out of the list
  All-taken {ℓ} :
      (Holds : Task → Type ℓ) (front : List Task) (task : Task) (back : List Task)
      → All Holds (front ++ (task ∷ back))
      → Holds task × All Holds (front ++ back)
  All-taken Holds [] task back all = all
  All-taken Holds (t ∷ front) task back all =
      let rest = All-taken Holds front task back all.1 in (rest.0, (all.0, rest.1))

  run_task-IsSound :
      (b : Broker x) (front : List Task) (task : Task) (back : List Task)
      → b.tasks ≡ front ++ (task ∷ back)
      → IsSound b
      → IsSound (run_task x task (record b { tasks = front ++ back })).0
  run_task-IsSound b front task back e (staged, (retained, tasks)) =
      let taken =
        All-taken (λ t. IsFull (message_of x t)) front task back
          (subst (λ l. TasksFull x l) e tasks) in
      (
        rw (run_task-manager x task (record b { tasks = front ++ back })) staged,
        run_task-Kept x task (record b { tasks = front ++ back }) taken.0 (retained, taken.1),
      )

  -- However requests and tasks interleave, each staged message has a payload and stands under its own
  -- packet id, each retained message has a payload, asked to be retained, and stands under its own
  -- topic, and each message that a spawned task is to deliver has a payload.
  pub Reachable-IsSound : (s : System x) → Reachable x s → IsSound s.broker
  unfolding start accept connected requested ran register_client_id Session.new Retain.new
  Reachable-IsSound _ (starts channels rng) = (
    λ id entry e. absurd (ground (arith, e, x.session.staged.get-empty id)),
    (λ topic p e. absurd (ground (arith, e, x.retained.get-empty topic)), tt),
  )
  Reachable-IsSound _ (next {s} r (accepts u tx)) = Reachable-IsSound s r
  Reachable-IsSound _ (next {s} r (connects u packet fresh)) =
      serve_connect-IsSound s.broker u (s.names u) packet (Reachable-IsSound s r)
  Reachable-IsSound _ (next {s} r (requests u packet)) =
      serve-IsSound s.broker (s.names u) packet (Reachable-IsSound s r)
  Reachable-IsSound _ (next {s} r (runs front task back e)) =
      run_task-IsSound s.broker front task back e (Reachable-IsSound s r)
  Reachable-IsSound _ (next {s} r (takes channels)) = Reachable-IsSound s r
