-- ===== src/Broker/System.antt =====
-- examples/broker.rs: the broker with its connections, as any interleaving of their calls.
pub mod Sessions
pub mod Messages
pub mod Kept
pub mod Invariant
pub mod Versions
pub mod Panics
pub mod Names
use aqua.Base.{ℕ, ◌≡◌, none, List, [], ◌∷◌, ◌++◌, if◌then◌else◌}
use aqua.Bytes.{Bytes}
use aqua.Coder.ControlPacket.{ControlPacket}
use aqua.Session as Session
use aqua.Session.{register_client_id, get_mqtt_id}
use aqua.Broker.TopicManager as TopicManager
use aqua.Retain as Retain
use aqua.Broker.State.{Outside, Broker, Task}
use aqua.Broker.Delivery.{run_task}
use aqua.Broker.Service.{serve}
use aqua.Broker.ConnectService.{serve_connect}

-- `names` is what the lock of each connection holds.
pub record System (x : Outside) : Type 0 where
  pub broker : Broker x
  pub names : x.session.Uuid → Bytes

module _ (x : Outside) where
  abbrev pub rename : (x.session.Uuid → Bytes) → x.session.Uuid → Bytes → x.session.Uuid → Bytes
  rename names u name v = if x.session.uuid_eq u v then name else names v

  unfoldable pub start : x.session.mpsc.Channels → x.Rng → System x
  unfolding Session.new Retain.new TopicManager.new
  start channels rng = record {
    broker = record {
      manager = Session.new x.session;
      store = Retain.new x.retained;
      topic_map = TopicManager.new x.topics;
      channels = channels;
      rng = rng;
      tasks = [];
    };
    names = λ u. [];
  }

  -- A connection is made: its sender is registered, and its lock holds no name.
  unfoldable pub accept : System x → x.session.Uuid → x.session.mpsc.Sender → System x
  accept s u tx = record {
    broker = record s.broker { manager = register_client_id x.session s.broker.manager u tx };
    names = rename s.names u [];
  }

  -- The connect service is called for a connection, and the service.
  unfoldable pub connected : System x → x.session.Uuid → ControlPacket → System x
  connected s u packet =
      let r = serve_connect x s.broker u (s.names u) packet in
      record { broker = r.0; names = rename s.names u r.1 }

  unfoldable pub requested : System x → x.session.Uuid → ControlPacket → System x
  requested s u packet = record s { broker = (serve x s.broker (s.names u) packet).0 }

  unfoldable pub ran : System x → List Task → Task → List Task → System x
  ran s front task back = record s {
    broker = (run_task x task (record s.broker { tasks = front ++ back })).0;
  }

  -- One step of the program. A connection calls the connect service for its first packet only, before it
  -- has a name; a spawned task runs at any time; the writers take packets out of the channels.
  pub data Step : System x → System x → Type 0 where
    accepts :
        {s : System x} (u : x.session.Uuid) (tx : x.session.mpsc.Sender) → Step s (accept s u tx)
    connects :
        {s : System x} (u : x.session.Uuid) (packet : ControlPacket)
        → get_mqtt_id x.session s.broker.manager u ≡ none
        → Step s (connected s u packet)
    requests :
        {s : System x} (u : x.session.Uuid) (packet : ControlPacket) → Step s (requested s u packet)
    runs :
        {s : System x} (front : List Task) (task : Task) (back : List Task)
        → s.broker.tasks ≡ front ++ (task ∷ back)
        → Step s (ran s front task back)
    takes :
        {s : System x} (channels : x.session.mpsc.Channels)
        → Step s (record s { broker = record s.broker { channels = channels } })

  pub data Reachable : System x → Type 0 where
    starts : (channels : x.session.mpsc.Channels) (rng : x.Rng) → Reachable (start channels rng)
    next : {s s' : System x} → Reachable s → Step s s' → Reachable s'
