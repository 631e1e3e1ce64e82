-- ===== src/Broker/Service/Cases.antt =====
-- The four ways of a PUBLISH through the service.
use aqua.Base.{ℕ, ◌≡◌, ◌≢◌, refl, true, ◌&&◌, not, is_some, Option, some, none, if◌then◌else◌}
use aqua.Outcome.{err, panic, protocol_violation}
use aqua.Bytes.{Bytes}
use aqua.Property.{QoS, qos0, qos1, qos2}
use aqua.Packet.Publish.{Publish, is_qos0}
use aqua.Broker.State.{Outside, Broker}
use aqua.Broker.Service.{Served, is_qos2, version_or_4, publish_qos2, publish_now, serve_publish}

module _ (x : Outside) where
  -- The message with the version of its client
  abbrev pub versioned : Broker x → Bytes → Publish → Publish
  versioned b name p = record p { protocol_version = version_or_4 x b name }

  -- By the quality of service and the packet id
  by_qos {ℓ} :
      (P : Served x → Type ℓ) (b : Broker x) (handed direct : Served x) (qos : QoS) (id : Option ℕ)
      → (qos ≡ qos2 → id ≡ none → P (b, panic))
      → (qos ≡ qos1 → id ≡ none → P (b, err protocol_violation))
      → (qos ≡ qos2 → is_some id ≡ true → P handed)
      → (qos ≢ qos2 → (qos ≡ qos1 → is_some id ≡ true) → P direct)
      → P (
          if is_qos2 qos && not (is_some id)
          then (b, panic)
          else if not (is_some id) && not (is_qos0 qos)
          then (b, err protocol_violation)
          else if is_qos2 qos
          then handed
          else direct)
  by_qos P b handed direct qos0 none stops refused two other = other (λ e. cc) (λ e. cc)
  by_qos P b handed direct qos0 (some id) stops refused two other = other (λ e. cc) (λ e. refl)
  by_qos P b handed direct qos1 none stops refused two other = refused refl refl
  by_qos P b handed direct qos1 (some id) stops refused two other = other (λ e. cc) (λ e. refl)
  by_qos P b handed direct qos2 none stops refused two other = stops refl refl
  by_qos P b handed direct qos2 (some id) stops refused two other = two refl refl

  pub serve_publish_cases {ℓ} :
      (P : Served x → Type ℓ) (b : Broker x) (name : Bytes) (p : Publish)
      → (p.qos ≡ qos2 → p.packet_id ≡ none → P (b, panic))
      → (p.qos ≡ qos1 → p.packet_id ≡ none → P (b, err protocol_violation))
      → (p.qos ≡ qos2 → is_some p.packet_id ≡ true → P (publish_qos2 x b name (versioned b name p)))
      → (p.qos ≢ qos2
          → (p.qos ≡ qos1 → is_some p.packet_id ≡ true)
          → P (publish_now x b name (versioned b name p)))
      → P (serve_publish x b name p)
  unfolding serve_publish
  serve_publish_cases P b name p stops refused two other =
      by_qos P b (publish_qos2 x b name (versioned b name p))
        (publish_now x b name (versioned b name p)) p.qos p.packet_id stops refused two other
