-- ===== src/Retain.antt =====
-- src/aqua/connection/retain_store.rs: the retained messages, over the map interface.
pub mod Laws
use aqua.Base.{
  ℕ, ◌≡◌, Bool, true, false, Option, none, some, List, [], ◌∷◌, if◌then◌else◌, get_elem?,
}
use aqua.Bytes.{Bytes}
use aqua.Topic.{bytes_eq, is_match}
use aqua.DashMap.{DashMap}
use aqua.Packet.Publish.{Publish}

module _ (kvs : DashMap bytes_eq Publish) where
  abbrev pub RetainStore : Type 0
  RetainStore = kvs.Map

  unfoldable pub new : RetainStore
  new = kvs.empty

  unfoldable pub update_retain : RetainStore → Bytes → Publish → RetainStore
  update_retain store topic pkt = kvs.insert store topic pkt

  unfoldable pub remove_retain : RetainStore → Bytes → RetainStore
  remove_retain store topic = kvs.remove store topic

  -- The loop over the entries; the packet is looked up again by its key.
  unfoldable pub check_loop : RetainStore → Bytes → List Bytes → List Publish
  check_loop store topic_filter [] = []
  check_loop store topic_filter (topic ∷ topics) =
      let ret = check_loop store topic_filter topics in
      if is_match topic_filter topic
      then elim (kvs.get store topic) [ none ↦ ret | some pkt ↦ pkt ∷ ret ]
      else ret

  unfoldable pub check_retain : RetainStore → Bytes → List Publish
  unfolding check_loop
  check_retain store topic_filter = check_loop store topic_filter (kvs.keys store)
