-- ===== src/Tests/ToyPeer.antt =====
-- A peer connection in miniature: its channel opens on the first datagram.
use rtc_tunnel.Base.{
  Bool, true, false, Option, none, some, List, [], ◌∷◌, ◌++◌, Bytes, Text, text, ok, length,
}
use rtc_tunnel.Backend.Peer.{Peer, PeerEvent, channel_open, PeerMessage, channel_message}

pub record ToyConnection : Type 0 where
  pub news : List PeerEvent
  pub writes : List Bytes
  pub reads : List PeerMessage
  pub is_open : Bool

abbrev popped : {A O : Type 0} → List A → (List A → O) → Option (A × O)
popped [] f = none
popped (a ∷ rest) f = some (a, f rest)

abbrev pub toy_peer : Peer
toy_peer = record {
  wasm32 = false;
  ip_to_string = λ _. text "127.0.0.1";
  Connection = ToyConnection;
  ChannelId = Unit {0};
  Candidate = Unit {0};
  Description = Text;
  build = λ _ _. ok (record { news = []; writes = []; reads = []; is_open = false });
  create_data_channel = λ _ _ pc. ok (tt, pc);
  new_candidate_host = λ _ _. ok tt;
  add_local_candidate = λ _ pc. ok pc;
  create_offer = λ pc. ok (text "offer", pc);
  create_answer = λ pc. ok (text "answer", pc);
  answer_description = λ sdp. ok sdp;
  offer_description = λ sdp. ok sdp;
  set_local_description = λ _ _ pc. ok (record pc { writes = (1 ∷ []) ∷ [] });
  set_remote_description = λ _ _ pc. (ok tt, pc);
  local_description = λ _. some (text "offer");
  handle_read = λ _ _ _ d pc. (
    true,
    record pc { news = channel_open ∷ []; reads = channel_message d ∷ []; is_open = true },
  );
  handle_timeout = λ _ pc. pc;
  close_connection = λ pc. pc;
  poll_peer_event = λ pc. popped pc.news λ q. record pc { news = q };
  poll_write = λ pc. popped pc.writes λ q. record pc { writes = q };
  poll_read = λ pc. popped pc.reads λ q. record pc { reads = q };
  poll_timeout = λ _. none;
  has_channel = λ _ _. true;
  channel_is_open = λ _ pc. pc.is_open;
  outstanding_bytes = λ _ _. 0;
  send_on_channel = λ _ _ m pc. (true, record pc { writes = pc.writes ++ m ∷ [] });
  transports = λ _. none;
  dtls_cipher = λ _ pc. (none, pc);
  event_count = λ pc. length pc.news;
  write_count = λ pc. length pc.writes;
  read_count = λ pc. length pc.reads;
}
