-- ===== src/Examples/BrokerRuns.antt =====
-- examples/broker.rs with two clients.
use aqua.Base.{ℕ, ◌≡◌, refl, false, true, [], ◌∷◌, none, some, arith, if◌then◌else◌}
use aqua.Outcome.{ok, err, unexpected}
use aqua.Bytes.{Bytes}
use aqua.Topic.{bytes_eq}
use aqua.Topic.Matching.{bytes_eq_iff}
use aqua.DashMap.{IsEquality}
use aqua.DashMap.Assoc.{assoc}
use aqua.Property.{qos1, qos2}
use aqua.Packet.Publish.{Publish, default_publish}
use aqua.Packet.Pubrel.{Pubrel, default_pubrel}
use aqua.Packet.Pubcomp.{Pubcomp, default_pubcomp}
use aqua.Coder.ControlPacket.{publish, pubrel, pubcomp}
use aqua.Channel.{Single}
use aqua.Session.{fetch_packet}
use aqua.Connection.Responses as Responses
use aqua.Connection.Responses.{new_packets, from_connack}
use aqua.Broker.State.{Outside, Broker, of_publish, of_pubrel}
use aqua.Broker.Delivery.{run_task}
use aqua.Broker.Service.{serve, version_or_4}
use aqua.Broker.Service.Cases.{versioned}
use aqua.Broker.HandOver.{
  pubrec_for, pubcomp_for, IsQuiet, serve_publish-staged, serve_pubrel_once, serve_pubcomp-drops,
  serve_publish_empty,
}
use aqua.Broker.HandOver.Direct.{acknowledgement, serve_publish-spawned}
use aqua.Examples.SessionRuns.{small_backend}

abbrev names : IsEquality bytes_eq
names = record { iff = bytes_eq_iff }

-- The random numbers are 7, again and again.
abbrev pub small : Outside
small = record {
  session = small_backend;
  retained = assoc bytes_eq names;
  topics = assoc bytes_eq names;
  Rng = ℕ;
  random = λ g. (7, g);
  random-le = λ g. omega arith;
}

abbrev pub idle : Single
idle = ([], false)

abbrev pub empty_broker : Broker small
empty_broker = record {
  manager = record {
    by_client_id = [];
    by_mqtt_id = [];
    by_client_mqtt = [];
    qos_tmp = [];
    mqtt_version = [];
  };
  store = [];
  topic_map = [];
  channels = idle;
  rng = 0;
  tasks = [];
}

abbrev pub ann : Bytes
ann = 0x61 ∷ []

-- "t"
abbrev pub topic_t : Bytes
topic_t = 0x74 ∷ []

abbrev pub hello : Publish
hello = record default_publish {
  qos = qos2;
  topic_name = topic_t;
  packet_id = some 5;
  payload_length = 1;
  payload_data = 0x68 ∷ [];
}

abbrev release_5 : Pubrel
release_5 = record default_pubrel { packet_id = 5 }

abbrev complete_5 : Pubcomp
complete_5 = record default_pubcomp { packet_id = 5 }

serve_publish-staged_example :
    let r = serve small empty_broker ann (publish hello) in
    (r.1 ≡ ok (Responses.new (pubrec_for small r.0 ann 5)))
    × (r.0.tasks ≡ [])
    × (r.0.channels ≡ idle)
    × (r.0.store ≡ [])
    × (fetch_packet small_backend r.0.manager 5 ≡ ok (versioned small empty_broker ann hello))
serve_publish-staged_example = serve_publish-staged small empty_broker ann hello 5 5 refl refl refl

abbrev staged_broker : Broker small
staged_broker = record empty_broker {
  manager = record empty_broker.manager { qos_tmp = (5, (hello, qos2)) ∷ [] };
}

staged_found : fetch_packet small_backend staged_broker.manager 5 ≡ ok hello
unfolding fetch_packet
staged_found = refl

serve_pubrel_once_example :
    let b' = (serve small staged_broker ann (pubrel release_5)).0 in
    ((serve small empty_broker ann (pubrel release_5)).1
      ≡ ok (Responses.new (pubcomp_for small empty_broker ann 5)))
    × (b'.tasks ≡ of_pubrel hello 5 ∷ [])
    × (fetch_packet small_backend b'.manager 5 ≡ err unexpected)
    × ((serve small b' [] (pubrel release_5)).0 ≡ b')
serve_pubrel_once_example =
    serve_pubrel_once small empty_broker staged_broker ann [] hello release_5 release_5 5 refl
      staged_found refl

serve_pubcomp-drops_example :
    let b' = (serve small staged_broker [] (pubcomp complete_5)).0 in
    (fetch_packet small_backend b'.manager 5 ≡ err unexpected)
    × ((serve small b' ann (pubrel release_5)).0 ≡ b')
    × ((serve small b' ann (pubrel release_5)).1 ≡ ok (Responses.new (pubcomp_for small b' ann 5)))
serve_pubcomp-drops_example =
    serve_pubcomp-drops small staged_broker ann [] complete_5 release_5 refl

abbrev silent : Publish
silent = record hello { payload_length = 0; payload_data = [] }

serve_publish_empty_example :
    IsQuiet small staged_broker silent (serve small staged_broker ann (publish silent)).0
serve_publish_empty_example = serve_publish_empty small staged_broker ann silent refl

abbrev pub kept : Publish
kept = record hello { qos = qos1; retain = true }

serve_publish-spawned_example :
    let r = serve small empty_broker ann (publish kept) in
    let task = of_publish (versioned small empty_broker ann kept) in
    (r.1 ≡ ok (Responses.new (acknowledgement small qos1 5 (version_or_4 small empty_broker ann))))
    × (r.0.tasks ≡ task ∷ [])
    × (r.0.manager ≡ empty_broker.manager)
    × (r.0.channels ≡ idle)
    × (r.0.store ≡ [])
    × (small.retained.get (run_task small task r.0).0.store topic_t
        ≡ (if bytes_eq topic_t topic_t then some (versioned small empty_broker ann kept) else none))
serve_publish-spawned_example =
    serve_publish-spawned small empty_broker ann kept 5 topic_t (λ e. cc) (λ e. refl) refl
