-- ===== src/Broker/TopicManager.antt =====
-- examples/broker.rs, `topic_manager`: who subscribed to what, over the map interface.
pub mod Listed
pub mod Subscribers
use aqua.Base.{
  Bool, true, false, not, Option, none, some, List, [], ◌∷◌, ◌++◌, if◌then◌else◌, unwrap_or,
}
use aqua.Bytes.{Bytes}
use aqua.Topic.{bytes_eq, is_match}
use aqua.DashMap.{DashMap}
use aqua.Packet.Subscribe.{SubscribeOption}

-- A client's name, with the options it gave
abbrev pub Subscription : Type 0
Subscription = Bytes × SubscribeOption

-- `v.retain(|x| x.0 != client_id)`
unfoldable pub without : Bytes → List Subscription → List Subscription
without client_id [] = []
without client_id (x ∷ v) =
    let rest = without client_id v in if bytes_eq x.0 client_id then rest else x ∷ rest

module _ (topic_map : DashMap bytes_eq (List Subscription)) where
  unfoldable pub new : topic_map.Map
  new = topic_map.empty

  unfoldable pub register : topic_map.Map → Bytes → Bytes → SubscribeOption → topic_map.Map
  register m topic_filter client_id option =
      topic_map.insert m topic_filter
        (unwrap_or (topic_map.get m topic_filter) [] ++ ((client_id, option) ∷ []))

  unfoldable pub unregister : topic_map.Map → Bytes → Bytes → topic_map.Map
  unfolding without
  unregister m topic_filter client_id = elim (topic_map.get m topic_filter) [
    | none ↦ m
    | some v ↦ topic_map.insert m topic_filter (without client_id v)
  ]

  -- The loop over the filters, which were collected before it
  unfoldable pub subed_loop : topic_map.Map → Bytes → List Bytes → List Subscription
  subed_loop m topic [] = []
  subed_loop m topic (topic_filter ∷ topic_filters) =
      let ret = subed_loop m topic topic_filters in
      if is_match topic_filter topic
      then elim (topic_map.get m topic_filter) [ none ↦ ret | some v2 ↦ v2 ++ ret ]
      else ret

  unfoldable pub subed_id : topic_map.Map → Bytes → List Subscription
  unfolding subed_loop
  subed_id m topic = subed_loop m topic (topic_map.keys m)
