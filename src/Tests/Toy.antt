-- ===== src/Tests/Toy.antt =====
-- Protocol crates in miniature: an ICE agent that selects its pair on the first datagram, a DTLS
-- endpoint that completes on one record, and an association that connects and echoes.
use rtc_tunnel.Base.{
  ℕ, ◌<◌, ap, arith, Bool, true, false, Option, none, some, List, [], ◌∷◌, ◌++◌, Bytes, Text, text,
  Result, ok, err, length, if◌then◌else◌, ◌==◌, ◌≡◌, refl,
}
use rtc_tunnel.Net.{SocketAddr, v4, Instant}
use rtc_tunnel.Platform.{
  Platform, Finite, IceState, IceEvent, connection_state_change, DtlsEvent, handshake_complete,
  application_data, SctpEvent, readable, Ppi, Payload, raw_encode, DatagramEvent, Credentials,
}

pub record ToyAgent : Type 0 where
  pub news : List IceEvent
  pub writes : List Bytes
  pub selected : Bool
  pub credentials : Option Credentials

pub record ToyAssociation : Type 0 where
  pub news : List SctpEvent
  pub inbox : List Bytes
  pub outbox : List Payload
  pub stream : Bool

-- An item off the front of a queue, with the object that is left.
abbrev popped : {A O : Type 0} → List A → (List A → O) → Option (A × O)
popped [] f = none
popped (a ∷ rest) f = some (a, f rest)

abbrev pub toy_agent : ToyAgent
toy_agent = record { news = []; writes = []; selected = false; credentials = none }

abbrev toy_association : ToyAssociation
toy_association = record {
  news = SctpEvent.sctp_connected ∷ [];
  inbox = [];
  outbox = [];
  stream = false;
}

-- The first datagram selects the pair, and is answered.
abbrev toy_handle_read : Instant → SocketAddr → SocketAddr → Bytes → ToyAgent → Bool × ToyAgent
toy_handle_read now a b d agent = (
  true,
  record agent {
    news = agent.news ++ connection_state_change IceState.connected now ∷ [];
    writes = agent.writes ++ d ∷ [];
    selected = true;
  },
)

-- A record of type 23 carries data, one of type 22 ends the handshake, any other is malformed.
abbrev toy_dtls_read : Bytes → Result Text (List DtlsEvent)
toy_dtls_read [] = err []
toy_dtls_read (b ∷ d) =
    if b == 22
    then ok (handshake_complete ∷ [])
    else if b == 23
    then ok (application_data d ∷ [])
    else err []

abbrev toy_event : Bytes → ToyAssociation → ToyAssociation
toy_event d a = record a { inbox = a.inbox ++ d ∷ []; news = a.news ++ readable 0 ∷ [] }

abbrev toy_read : ToyAssociation → Option Bytes × ToyAssociation
toy_read a = elim a.inbox [ [] ↦ (none, a) | (d ∷ ds) ↦ (some d, record a { inbox = ds }) ]

abbrev toy_chunks : Option Bytes × ToyAssociation → Result Text (Option Bytes) × ToyAssociation
toy_chunks (o, a) = (ok o, a)

abbrev toy_ppi : Bytes → Ppi
toy_ppi [] = Ppi.binary_empty
toy_ppi (d ∷ []) = if d == 0 then Ppi.binary_empty else Ppi.binary
toy_ppi (_ ∷ _ ∷ _) = Ppi.binary

abbrev pub toy_addr : SocketAddr
toy_addr = record { ip = v4 0x7F000001; port = 4000 }

abbrev pub toy : Platform
toy = record {
  wasm32 = true;
  to_lowercase = λ s. s;
  ip_to_string = λ _. text "127.0.0.1";
  parse_socket_addr = λ _. some toy_addr;
  from_utf8 = λ s. some s;
  into_bytes = λ s. s;
  sha256 = λ d. ok d;
  generate_certificate = ok ((0xAB ∷ 0x0C ∷ []) ∷ []);
  Agent = ToyAgent;
  Candidate = Unit {0};
  new_agent = λ _ _ _. ok toy_agent;
  new_candidate_host = λ _ _. ok tt;
  add_local_candidate = λ _ a. ok a;
  add_remote_candidate = λ _ a. ok a;
  set_remote_credentials =
      λ u p a. ok (record a { credentials = some (record { ufrag = u; pwd = p }) });
  remote_credentials = λ a. a.credentials;
  local_credentials = λ a. record { ufrag = text "us"; pwd = text "secret" };
  first_local_candidate = λ a. some (text "1 1 udp 1 127.0.0.1 4000 typ host");
  start_connectivity_checks = λ _ _ _ _ a. ok a;
  ice_poll_event = λ a. popped a.news λ q. record a { news = q };
  ice_poll_write = λ a. popped a.writes λ q. record a { writes = q };
  has_selected_pair = λ a. a.selected;
  ice_handle_read = toy_handle_read;
  ice_handle_timeout = λ _ a. a;
  ice_poll_timeout = λ _. none;
  ice_close = λ a. a;
  Dtls = List Bytes;
  DtlsConfig = Unit {0};
  new_dtls = [];
  build_dtls_config = λ _ _ _. ok tt;
  set_server_config = λ _ d. d;
  dtls_connect = λ _ _ _ d. (true, d);
  dtls_read = λ _ _ b d. (toy_dtls_read b, d);
  dtls_write = λ _ _ b d. (ok tt, d ++ (23 ∷ b) ∷ []);
  dtls_poll_transmit = λ d. popped d λ q. q;
  dtls_handle_timeout = λ _ _ d. d;
  dtls_poll_timeout = λ _ _. none;
  dtls_cipher_suite = λ _ _. none;
  Sctp = Unit {0};
  SctpConfig = Unit {0};
  Association = ToyAssociation;
  Handle = Unit {0};
  AssociationEvent = Bytes;
  EndpointEvent = Unit {0};
  Chunks = Bytes;
  sctp_config = λ _ _. tt;
  new_sctp = λ _. tt;
  sctp_connect = λ _ _ _ s. (ok (tt, toy_association), s);
  sctp_handle = λ _ _ b s. (some (tt, DatagramEvent.association_event b), s);
  sctp_handle_event = λ _ _ s. s;
  handle_event = toy_event;
  poll = λ a. popped a.news λ q. record a { news = q };
  poll_endpoint_event = λ _. none;
  poll_transmit = λ _ a. popped a.outbox λ q. record a { outbox = q };
  handle_timeout = λ _ a. a;
  poll_timeout = λ _. none;
  has_stream = λ _ a. a.stream;
  open_stream = λ _ _ a. (ok tt, record a { stream = true });
  set_reliability_params = λ _ _ _ _ a. (ok tt, a);
  read_sctp = λ _ a. toy_chunks (toy_read a);
  ppi = toy_ppi;
  to_payload = λ _ d. ok d;
  buffered_amount = λ _ _. ok 0;
  is_writable = λ _ a. a.stream;
  write_chunk_with_ppi =
      λ _ b _ a. (true, record a { outbox = a.outbox ++ raw_encode (b ∷ []) ∷ [] });
  ice_event_count = λ a. length a.news;
  ice_write_count = λ a. length a.writes;
  dtls_transmit_count = λ d. length d;
  sctp_event_count = λ a. length a.news;
  endpoint_event_count = λ _. 0;
  transmit_count = λ _ a. length a.outbox;
  chunk_count = λ _ a. length a.inbox;
}

popped-shorter :
    {A O : Type 0} (q : List A) (f : List A → O) (count : O → ℕ)
    → ((rest : List A) → count (f rest) ≡ length rest)
    → (x : A) (o : O) → popped q f ≡ some (x, o)
    → count o < length q
popped-shorter [] f count h x o e = absurd (cc)
popped-shorter (a ∷ rest) f count h x o e =
    let same : f rest ≡ o = cc in omega (arith, h rest, ap count same)

pub toy-Finite : Finite toy
toy-Finite = record {
  ice_events = λ a b x e. popped-shorter a.news _ (λ c. toy.ice_event_count c) (λ _. refl) x b e;
  ice_writes = λ a b x e. popped-shorter a.writes _ (λ c. toy.ice_write_count c) (λ _. refl) x b e;
  dtls_transmits = λ a b x e. popped-shorter a _ (λ c. toy.dtls_transmit_count c) (λ _. refl) x b e;
  sctp_events = λ a b x e. popped-shorter a.news _ (λ c. toy.sctp_event_count c) (λ _. refl) x b e;
  endpoint_events = λ a b x e. absurd (cc);
  transmits =
      λ now a b x e. popped-shorter a.outbox _ (λ c. toy.transmit_count now c) (λ _. refl) x b e;
}
