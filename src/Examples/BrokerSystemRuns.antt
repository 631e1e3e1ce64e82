-- ===== src/Examples/BrokerSystemRuns.antt =====
-- examples/broker.rs: a client that connects, subscribes and is sent a message.
use aqua.Base.{◌⊎◌, inr, ◌≡◌, ◌≢◌, ◌↔◌, refl, false, true, [], ◌∷◌, map, none, some, arith}
use aqua.Outcome.{ok, IsSafe}
use aqua.Bytes.{Bytes}
use aqua.Topic.{bytes_eq, is_match}
use aqua.Topic.Matching.{bytes_eq_iff}
use aqua.Property.{qos1}
use aqua.Packet.Connect.{Connect, default_connect}
use aqua.Packet.Subscribe.{Subscribe, default_subscribe, SubscribeOption, receive_all}
use aqua.Coder.ControlPacket.{publish, subscribe, connect, disconnect}
use aqua.Packet.Disconnect.{default_disconnect}
use aqua.Session.{
  get_mqtt_id, register_client_id, get_protocol_version, register_mqtt_id, set_protocol_version,
}
use aqua.Session.Routes.{IsRoute}
use aqua.Retain.Laws.{IsIn}
use aqua.Connection.Responses.{new_packets}
use aqua.Broker.TopicManager.{subed_id}
use aqua.Broker.TopicManager.Listed.{Listed}
use aqua.Broker.State.{Broker, of_publish}
use aqua.Broker.Delivery.{run_task}
use aqua.Broker.Delivery.Received.{Extended, IsForSubscriber, queue, run_task-IsForSubscriber}
use aqua.Broker.Delivery.Reported.{AttemptAt, channels_before, run_task-AttemptAt}
use aqua.Broker.Service.{serve, suback_for}
use aqua.Broker.Service.Answers.{IsAnswered, serve-IsAnswered}
use aqua.Broker.Service.Selection.{NoRepeats}
use aqua.Broker.Service.Subscribing.{IsWanted, selected, serve_subscribe-selected}
use aqua.Broker.Service.Registering.{IsRequested, serve_subscribe-registers}
use aqua.Broker.ConnectService.{mqtt_name, serve_connect, is_supported, accept_client}
use aqua.Broker.System.{
  System, start, accept, connected, requested, Reachable, starts, next, accepts, connects,
}
use aqua.Broker.System.Messages.{RetainedFull}
use aqua.Broker.System.Names.{by_mqtt_id-names}
use aqua.Broker.System.Invariant.{IsSound, Reachable-IsSound}
use aqua.Broker.System.Panics.{serve-IsSafe_named}
use aqua.Examples.SessionRuns.{small_backend}
use aqua.Examples.DecoderRuns.{mid_decoder, come, mid_decoder-Decodes, mid_decoder-delivers}
use aqua.Examples.BrokerRuns.{small, idle, empty_broker, ann, topic_t, hello, kept}

abbrev option_1 : SubscribeOption
option_1 = record {
  retain_handling = receive_all;
  retain_as_published = false;
  no_local = false;
  qos = qos1;
}

abbrev filter_t : Bytes × SubscribeOption
filter_t = (topic_t, option_1)

abbrev subscribe_t : Subscribe
subscribe_t = record default_subscribe { packet_id = 9; topic_filters = filter_t ∷ [] }

-- Ann is connected as the client 1 with the sender 0; "old" subscribes to her topic too.
abbrev ann_broker : Broker small
ann_broker = record empty_broker {
  manager = record empty_broker.manager {
    by_client_id = (1, 0) ∷ [];
    by_mqtt_id = (ann, 1) ∷ [];
    by_client_mqtt = (1, ann) ∷ [];
    mqtt_version = (ann, 4) ∷ [];
  };
  topic_map = (topic_t, (ann, option_1) ∷ []) ∷ [];
}

is_match-topic_t : is_match topic_t topic_t ≡ true
unfolding is_match
is_match-topic_t = refl

serve_subscribe-registers_example :
    Listed
      (ann, option_1)
      (subed_id small.topics
        (serve small empty_broker ann (subscribe subscribe_t)).0.topic_map
        topic_t)
    ↔ (Listed (ann, option_1) (subed_id small.topics empty_broker.topic_map topic_t)
        ⊎ IsRequested small ann (filter_t ∷ []) topic_t (ann, option_1))
serve_subscribe-registers_example =
    serve_subscribe-registers small empty_broker ann subscribe_t topic_t (ann, option_1) (λ e. cc)

-- The first subscriber to the topic is found.
ann_registered :
    Listed
      (ann, option_1)
      (subed_id small.topics
        (serve small empty_broker ann (subscribe subscribe_t)).0.topic_map
        topic_t)
ann_registered =
    (serve_subscribe-registers small empty_broker ann subscribe_t topic_t (ann, option_1)
        (λ e. cc)).1
      (inr (0, filter_t, refl, is_match-topic_t, refl))

abbrev retaining : Broker small
retaining = record ann_broker { store = (topic_t, kept) ∷ [] }

retaining_full : RetainedFull small retaining.store
retaining_full topic p found = ground (arith, found, bytes_eq_iff topic_t topic)

ann_version : get_protocol_version small_backend retaining.manager ann ≡ some 4
unfolding get_protocol_version bytes_eq
ann_version = refl

serve-IsAnswered_example : IsAnswered [] (serve small retaining ann (subscribe subscribe_t)).1
serve-IsAnswered_example = serve-IsAnswered small retaining ann (subscribe subscribe_t) []

serve_subscribe-selected_example :
    ((serve small retaining ann (subscribe subscribe_t)).1
      ≡ ok (
          new_packets (
            suback_for small subscribe_t ann 4
            ∷ map publish (selected small retaining subscribe_t))))
    × NoRepeats (map (λ m. m.topic_name) (selected small retaining subscribe_t))
    × (IsIn kept (selected small retaining subscribe_t)
        ↔ IsWanted small retaining.store subscribe_t.topic_filters kept)
serve_subscribe-selected_example =
    serve_subscribe-selected small retaining ann subscribe_t 4 kept retaining_full ann_version

run_task-IsForSubscriber_example :
    Extended
      (IsForSubscriber small ann_broker hello)
      []
      (queue small (run_task small (of_publish hello) ann_broker).0 0)
run_task-IsForSubscriber_example = run_task-IsForSubscriber small ann_broker (of_publish hello) 0

subed_id-topic_t : subed_id small.topics ann_broker.topic_map topic_t ≡ (ann, option_1) ∷ []
unfolding subed_id is_match
subed_id-topic_t = refl

ann-IsRoute : IsRoute small_backend ann_broker.manager ann 0
unfolding bytes_eq
ann-IsRoute = record { client_id = 1; named = refl; registered = refl }

run_task-AttemptAt_example :
    AttemptAt small hello
      (ann, option_1)
      0
      (channels_before small (of_publish hello) ann_broker 0)
      (queue small (run_task small (of_publish hello) ann_broker).0 0)
      (run_task small (of_publish hello) ann_broker).1
      0
run_task-AttemptAt_example =
    run_task-AttemptAt small ann_broker (of_publish hello) 0 (ann, option_1) 0 (rw subed_id-topic_t)
      ann-IsRoute

abbrev connect_ann : Connect
connect_ann = record default_connect {
  protocol_name = mqtt_name;
  protocol_ver = 4;
  client_id = ann;
}

abbrev first_system : System small
first_system = start small idle 0

abbrev accepted_system : System small
accepted_system = accept small first_system 1 0

abbrev named_system : System small
named_system = connected small accepted_system 1 (connect connect_ann)

unnamed : get_mqtt_id small_backend accepted_system.broker.manager 1 ≡ none
unfolding accept start get_mqtt_id register_client_id
unnamed = refl

named-Reachable : Reachable small named_system
named-Reachable =
    next (next (starts idle 0) (accepts 1 0)) (connects 1 (connect connect_ann) unnamed)

named-names : named_system.names 1 ≢ []
unfolding connected serve_connect bytes_eq
named-names e = cc

named_leads : small_backend.mqtt_ids.get named_system.broker.manager.by_mqtt_id ann ≡ some 1
unfolding connected accept start serve_connect is_supported accept_client register_mqtt_id
    set_protocol_version register_client_id bytes_eq
named_leads = refl

by_mqtt_id-names_example :
    (ann ≡ named_system.names 1)
    × (small_backend.mqtt_ids.get
          (requested small named_system 1 (disconnect default_disconnect)).broker.manager.by_mqtt_id
          ann
        ≡ none)
by_mqtt_id-names_example =
    by_mqtt_id-names small named_system 1 ann default_disconnect named-Reachable named-names
      named_leads

Reachable-IsSound_example : IsSound small named_system.broker
Reachable-IsSound_example = Reachable-IsSound small named_system named-Reachable

serve-IsSafe_named_example :
    IsSafe (serve small named_system.broker (named_system.names 1) (publish come)).1
serve-IsSafe_named_example =
    serve-IsSafe_named small named_system 1 mid_decoder (publish come) named-Reachable named-names
      mid_decoder-Decodes mid_decoder-delivers
