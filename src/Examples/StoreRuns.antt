-- ===== src/Examples/StoreRuns.antt =====
-- The retained messages of src/aqua/connection/retain_store.rs and the subscriptions of
-- examples/broker.rs, on particular topics.
use aqua.Base.{List, false, ◌≡◌, ◌↔◌, refl, true, [], ◌∷◌}
use aqua.Bytes.{Bytes}
use aqua.Topic.{bytes_eq, split, is_match}
use aqua.Topic.Matching.{Matches, bytes_eq_iff, is_match-Matches}
use aqua.DashMap.{DashMap, IsEquality}
use aqua.DashMap.Assoc.{assoc}
use aqua.Packet.Publish.{Publish, default_publish}
use aqua.Property.{qos0}
use aqua.Packet.Subscribe.{SubscribeOption, receive_all}
use aqua.Broker.TopicManager.{Subscription, subed_id}
use aqua.Broker.TopicManager.Listed.{Listed}
use aqua.Broker.TopicManager.Subscribers.{IsSubscribed, subed_id-IsSubscribed}
use aqua.Retain.{RetainStore, check_retain}
use aqua.Retain.Laws.{IsIn, IsRetained, check_retain-IsRetained}

abbrev names : IsEquality bytes_eq
names = record { iff = bytes_eq_iff }

abbrev store_map : DashMap bytes_eq Publish
store_map = assoc bytes_eq names

-- `a/b` and `+/b`
abbrev topic_ab : Bytes
topic_ab = 0x61 ∷ 0x2f ∷ 0x62 ∷ []

abbrev any_b : Bytes
any_b = 0x2b ∷ 0x2f ∷ 0x62 ∷ []

is_match-Matches_example : (is_match any_b topic_ab ≡ true) ↔ Matches (split any_b) (split topic_ab)
is_match-Matches_example = is_match-Matches any_b topic_ab

any_b_fits : is_match any_b topic_ab ≡ true
unfolding is_match
any_b_fits = refl

abbrev one_retained : RetainStore store_map
one_retained = (topic_ab, default_publish) ∷ []

check_retain-IsRetained_example :
    IsIn default_publish (check_retain store_map one_retained any_b)
    ↔ ((topic : Bytes) × IsRetained store_map one_retained any_b default_publish topic)
check_retain-IsRetained_example =
    check_retain-IsRetained store_map one_retained any_b default_publish

abbrev subscriptions : DashMap bytes_eq (List Subscription)
subscriptions = assoc bytes_eq names

abbrev plain_option : SubscribeOption
plain_option = record {
  retain_handling = receive_all;
  retain_as_published = false;
  no_local = false;
  qos = qos0;
}

abbrev ann : Bytes
ann = 0x6e ∷ []

abbrev ann_subscribed : subscriptions.Map
ann_subscribed = (any_b, (ann, plain_option) ∷ []) ∷ []

subed_id-IsSubscribed_example :
    Listed (ann, plain_option) (subed_id subscriptions ann_subscribed topic_ab)
    ↔ IsSubscribed subscriptions ann_subscribed topic_ab (ann, plain_option)
subed_id-IsSubscribed_example =
    subed_id-IsSubscribed subscriptions ann_subscribed topic_ab (ann, plain_option)
