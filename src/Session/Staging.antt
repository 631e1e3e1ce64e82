-- ===== src/Session/Staging.antt =====
-- The staged QoS 2 messages of a session manager behave as a map from packet ids.
use aqua.Base.{ℕ, ◌≡◌, ◌↔◌, some, ◌==◌, if◌then◌else◌, arith, Option-cases, inl, inr}
use aqua.Outcome.{ok, err, unexpected}
use aqua.Property.{QoS}
use aqua.Packet.Publish.{Publish}
use aqua.Session.{Backend, SessionManager, add_staging_packet, fetch_packet, commit_packet}

module _ (k : Backend) where
  -- After a packet with the id `id` is staged, `fetch_packet` gives that packet for `id`, and for every
  -- other id what it gave before.
  pub fetch_packet-add_staging_packet :
      (m : SessionManager k) (pkt : Publish) (qos : QoS) (id pid : ℕ)
      → pkt.packet_id ≡ some id
      → fetch_packet k (add_staging_packet k m pkt qos) pid
        ≡ (if id == pid then ok pkt else fetch_packet k m pid)
  unfolding fetch_packet add_staging_packet
  fetch_packet-add_staging_packet m pkt qos id pid has_id =
      rw has_id (ground (arith, k.staged.get-insert m.qos_tmp id (pkt, qos) pid))

  -- `commit_packet` succeeds exactly where `fetch_packet` would; after it the id is not staged, so that a
  -- second commit of it fails, and every other id is as before.
  pub fetch_packet-commit_packet :
      (m : SessionManager k) (id pid : ℕ)
      → let m' = (commit_packet k m id).0 in
        (((commit_packet k m id).1 ≡ err unexpected) ↔ (fetch_packet k m id ≡ err unexpected))
        × (fetch_packet k m' pid ≡ (if id == pid then err unexpected else fetch_packet k m pid))
        × ((commit_packet k m' id).1 ≡ err unexpected)
  unfolding fetch_packet commit_packet
  fetch_packet-commit_packet m id pid = elim (Option-cases (k.staged.get m.qos_tmp id)) [
    | inl gone ↦ (ground (arith, gone), ground (arith, gone), ground (arith, gone))
    | inr (entry, found) ↦ (
      ground (arith, found),
      ground (arith, found, k.staged.get-remove m.qos_tmp id pid),
      ground (arith, found, k.staged.get-remove m.qos_tmp id id),
    )
  ]
