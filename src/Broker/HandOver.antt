-- ===== src/Broker/HandOver.antt =====
-- examples/broker.rs: how a message passes from its publisher to the tasks that deliver it.
pub mod Direct
use aqua.Base.{
  ℕ, ◌≡◌, ◌≢◌, ◌⊎◌, refl, sym, ap, ◌∙◌, Bool, true, false, ◌&&◌, not, Option, none, some, is_some,
  List, [], ◌∷◌, ◌++◌, if◌then◌else◌, ◌==◌, ==_refl, arith, Bool-cases, if_cases, Option-cases, inl,
  inr,
}
use aqua.Outcome.{Outcome, ok, err, panic, out_of_fuel, unexpected}
use aqua.Bytes.{Bytes}
use aqua.Property.{QoS, qos0, qos1, qos2}
use aqua.Packet.Publish.{Publish, is_qos0}
use aqua.Packet.Pubrec as Pubrec
use aqua.Packet.Pubrel.{Pubrel}
use aqua.Packet.Pubcomp as Pubcomp
use aqua.Packet.Pubcomp.{Pubcomp}
use aqua.Coder.ControlPacket.{ControlPacket, publish, pubrec, pubrel, pubcomp, puback, no_operation}
use aqua.Session.{SessionManager, add_staging_packet, fetch_packet, commit_packet}
use aqua.Session.Staging.{fetch_packet-add_staging_packet, fetch_packet-commit_packet}
use aqua.Connection.Responses.{new}
use aqua.Broker.State.{Outside, Broker, of_publish, of_pubrel}
use aqua.Broker.Delivery.{retain_message}
use aqua.Broker.Service.{
  Served, is_qos2, version_or_4, forget_retained, publish_qos2, publish_now, publish_answer,
  serve_publish, release_staged, commit, released, serve_pubrel, serve,
}
use aqua.Broker.Service.Cases.{versioned, serve_publish_cases}
use aqua.Broker.System.Messages.{IsFull}

module _ (x : Outside) where
  abbrev staging : Broker x → Publish → Broker x
  staging b p = record b { manager = add_staging_packet x.session b.manager p qos2 }

  abbrev pub pubrec_for : Broker x → Bytes → ℕ → ControlPacket
  pubrec_for b name id = pubrec (record {
    packet_id = id;
    reason_code = some Pubrec.success;
    pubrec_properties = none;
    protocol_version = version_or_4 x b name;
  })

  abbrev pub pubcomp_for : Broker x → Bytes → ℕ → ControlPacket
  pubcomp_for b name id = pubcomp (record {
    packet_id = id;
    pubcomp_reason = some Pubcomp.success;
    pubcomp_properties = none;
    protocol_version = version_or_4 x b name;
  })

  staged_result :
      (b : Broker x) (name : Bytes) (p : Publish) (id : ℕ)
      → p.qos ≡ qos2
      → p.packet_id ≡ some id
      → IsFull p
      → let b' = staging b (versioned x b name p) in
        serve_publish x b name p ≡ (b', ok (new (pubrec_for b' name id)))
  unfolding serve_publish publish_qos2
  staged_result b name p id two own full = ground (arith, two, own, full)

  -- A message of QoS 2 that has a payload and a packet id is answered by a PUBREC with that id, and staged
  -- under it in place of what was staged there; nothing is spawned, sent or retained, and under the
  -- other ids the same is staged.
  pub serve_publish-staged :
      (b : Broker x) (name : Bytes) (p : Publish) (id pid : ℕ)
      → p.qos ≡ qos2
      → p.packet_id ≡ some id
      → IsFull p
      → let r = serve x b name (publish p) in
        (r.1 ≡ ok (new (pubrec_for r.0 name id)))
        × (r.0.tasks ≡ b.tasks)
        × (r.0.channels ≡ b.channels)
        × (r.0.store ≡ b.store)
        × (fetch_packet x.session r.0.manager pid ≡ (
            if id == pid then ok (versioned x b name p) else fetch_packet x.session b.manager pid))
  unfolding serve
  serve_publish-staged b name p id pid two own full = rw (staged_result b name p id two own full) (
    refl,
    refl,
    refl,
    refl,
    fetch_packet-add_staging_packet x.session b.manager (versioned x b name p) qos2 id pid own,
  )

  released_tasks :
      (b : Broker x) (p : Publish) (id : ℕ)
      → IsFull p
      → (released x b id (ok p)).tasks ≡ b.tasks ++ (of_pubrel p id ∷ [])
  unfolding release_staged retain_message commit
  released_tasks b p id full = ground (arith, full)

  released_manager :
      (b : Broker x) (p : Publish) (id : ℕ)
      → (released x b id (ok p)).manager ≡ (commit_packet x.session b.manager id).0
  unfolding release_staged retain_message commit
  released_manager b p id = ground arith

  fetch_packet-released :
      (b : Broker x) (p : Publish) (id pid : ℕ)
      → fetch_packet x.session (released x b id (ok p)).manager pid
        ≡ (if id == pid then err unexpected else fetch_packet x.session b.manager pid)
  fetch_packet-released b p id pid =
      rw (released_manager b p id) (fetch_packet-commit_packet x.session b.manager id pid).1

  released_again :
      (b : Broker x) (p : Publish) (id : ℕ)
      → let b' = released x b id (ok p) in
        released x b' id (fetch_packet x.session b'.manager id) ≡ b'
  released_again b p id = rw (fetch_packet-released b p id id) (rw (==_refl id) refl)

  -- A PUBREL is answered by a PUBCOMP with its id in any state of the broker. In a state in which a message
  -- that has a payload is staged under the id, exactly one delivery of it is spawned, and it is staged
  -- no more, so that a second PUBREL with the id, of any client, changes nothing; what is staged under
  -- the other ids stays.
  pub serve_pubrel_once :
      (any b : Broker x) (name other : Bytes) (p : Publish) (r r' : Pubrel) (pid : ℕ)
      → r'.packet_id ≡ r.packet_id
      → fetch_packet x.session b.manager r.packet_id ≡ ok p
      → IsFull p
      → let b' = (serve x b name (pubrel r)).0 in
        ((serve x any name (pubrel r)).1 ≡ ok (new (pubcomp_for any name r.packet_id)))
        × (b'.tasks ≡ b.tasks ++ (of_pubrel p r.packet_id ∷ []))
        × (fetch_packet x.session b'.manager pid
            ≡ (if r.packet_id == pid then err unexpected else fetch_packet x.session b.manager pid))
        × ((serve x b' other (pubrel r')).0 ≡ b')
  unfolding serve serve_pubrel
  serve_pubrel_once any b name other p r r' pid same found full = rw same (
      rw found (
        refl,
        released_tasks b p r.packet_id full,
        fetch_packet-released b p r.packet_id pid,
        released_again b p r.packet_id,
      ))

  -- Packet ids are staged without the client: a PUBCOMP of any client takes the message away that another
  -- has staged under the same id, and the PUBREL for it then spawns no delivery and changes nothing, but
  -- is answered as if it had.
  pub serve_pubcomp-drops :
      (b : Broker x) (name other : Bytes) (c : Pubcomp) (r : Pubrel)
      → c.packet_id ≡ r.packet_id
      → let b' = (serve x b other (pubcomp c)).0 in
        (fetch_packet x.session b'.manager r.packet_id ≡ err unexpected)
        × ((serve x b' name (pubrel r)).0 ≡ b')
        × ((serve x b' name (pubrel r)).1 ≡ ok (new (pubcomp_for b' name r.packet_id)))
  unfolding serve serve_pubrel commit
  serve_pubcomp-drops b name other c r same =
      let gone : fetch_packet x.session (commit x b c.packet_id).manager r.packet_id
          ≡ err unexpected =
        (fetch_packet-commit_packet x.session b.manager c.packet_id r.packet_id).1
        ∙ ground (arith, same) in
      (gone, rw gone refl, refl)

  -- Nothing is spawned, sent or staged, and only a message that asks to be retained changes the store.
  abbrev pub IsQuiet : Broker x → Publish → Broker x → Type 0
  IsQuiet b p b' =
      (b'.tasks ≡ b.tasks)
      × (b'.channels ≡ b.channels)
      × (b'.manager ≡ b.manager)
      × ((p.retain ≡ true) ⊎ (b'.store ≡ b.store))

  forget_retained-IsQuiet : (b : Broker x) (p : Publish) → IsQuiet b p (forget_retained x b p)
  unfolding forget_retained
  forget_retained-IsQuiet b p =
      if_cases (IsQuiet b p) p.retain _ b (λ asks. (refl, refl, refl, inl asks))
        (λ quiet. (refl, refl, refl, inr refl))

  by_length :
      (b b' : Broker x) (p : Publish)
      → p.payload_length ≡ 0
      → IsQuiet b p (if p.payload_length == 0 then forget_retained x b p else b')
  by_length b b' p e =
      if_cases (IsQuiet b p) (p.payload_length == 0) (forget_retained x b p) b'
        (λ gone. forget_retained-IsQuiet b p) (λ full. absurd (ground (arith, e, full)))

  -- A message without a payload spawns no delivery, sends nothing, and is not staged, whatever its quality
  -- of service; the retained messages change only where it asks to be retained.
  pub serve_publish_empty :
      (b : Broker x) (name : Bytes) (p : Publish)
      → p.payload_length ≡ 0
      → IsQuiet b p (serve x b name (publish p)).0
  unfolding serve publish_qos2 publish_now
  serve_publish_empty b name p none_there =
      serve_publish_cases x (λ r. IsQuiet b p r.0) b name p
        (λ two missing. (refl, refl, refl, inr refl)) (λ one missing. (refl, refl, refl, inr refl))
        (λ two there. by_length b _ (versioned x b name p) none_there)
        (λ other there. by_length b _ (versioned x b name p) none_there)
