-- ===== src/PipeHub/Tests.antt =====
-- include/pipe_hub_protocol.hpp and include/pipe_hub_daemon.hpp: a frame, and a client that leaves.
use mathlib.Core.Bool.{◌&&◌, not}
use mathlib.Core.Path.{subst}
use munchkinglang.Prelude.{
  ℕ, List, [], ◌∷◌, true, false, none, some, ◌≡◌, ◌⊎◌, inl, inr, sym, Bool-cases, refl, arith, ◌==◌,
  if◌then◌else◌, length, get_or,
}
use munchkinglang.Mir.Runtime.{same_bytes}
use munchkinglang.PipeHub.Protocol.{
  encode_publish, encode_frame, append_u8, append_u32, append_bytes, append_string, append_each,
  encode_ack, encode_deliver, AttachmentMode, ClientKind,
}
use munchkinglang.PipeHub.Protocol.Decode.{
  decode_message, decode_fields, read, read_bytes, u8, u32, opcode_of,
}
use munchkinglang.PipeHub.Protocol.Bytes.{sized, reader}
use munchkinglang.PipeHub.Protocol.RoundTrip.{Sent, encode, meant, body, decode_message-encode}
use munchkinglang.PipeHub.Channel.{
  is_unused, channel_has_reader, clear_data_ack, clear_recv_ready, clear_offer, erase_id, listed,
  ChannelState, empty_channel, remove_client_from_channel,
}
use munchkinglang.PipeHub.Channel.Remove.{Role, has_role, remove_client_from_channel-has_role}
use munchkinglang.PipeHub.Daemon.Deliver.{
  publish_message, publish_to_readers, deliver_to_readers, broadcast, deliver_queued,
}
use munchkinglang.PipeHub.Daemon.{
  Event, Outcome, client_at, store_client, same_client, open_channel, same_channel, store_channel,
  has_client, deliver_payload, deliver_to_client, send_ack, send_frame, ClientState, Daemon,
  close_client, detach_all, detach_from, maybe_erase_channel,
}
use munchkinglang.PipeHub.Daemon.Bounds.{ChannelFits, Fits, Ends, Anything}
use munchkinglang.PipeHub.Daemon.Bounds.Dispatch.{ingest_bytes-Ends}
use munchkinglang.PipeHub.Daemon.Input.{
  ingest_bytes, process_client_input, input_rounds, input_round, take_header, take_frame,
  handle_message, handle_kind,
}
use munchkinglang.PipeHub.Daemon.Close.{
  mentions, IsRecorded, close_client-has_role, close_client-IsRecorded,
}

-- "Hi" on channel "c".
abbrev greeting : Sent
greeting = Sent.publish (99 ∷ []) (72 ∷ 105 ∷ [])

abbrev greeting_memory : ℕ → ℕ
greeting_memory i = get_or (body greeting) i 0

decode_message-encode_example :
    (encode greeting ≡ record { bytes = sized (body greeting); failed = false })
    × (decode_message greeting_memory (length (body greeting)) ≡ (
      meant greeting,
      reader greeting_memory (length (body greeting)) (length (body greeting)),
    ))
decode_message-encode_example = decode_message-encode greeting greeting_memory (ground arith) (
  refl,
  (refl, (refl, (refl, (refl, (refl, (refl, (refl, (refl, (refl, (refl, (refl, tt))))))))))),
)

-- Client 5 writes to channel "c", which client 6 reads.
abbrev shared : ChannelState
shared = record empty_channel { writers = 5 ∷ []; queue_readers = 6 ∷ [] }

remove_client_from_channel-has_role_example :
    has_role Role.publisher 5 (remove_client_from_channel shared 5)
    ≡ (has_role Role.publisher 5 shared && not (5 == 5))
remove_client_from_channel-has_role_example =
    remove_client_from_channel-has_role Role.publisher shared 5 5

abbrev attached : AttachmentMode → ClientState
attached mode = record {
  pid = 1;
  kind = ClientKind.vm;
  input = [];
  frame_size = 0;
  have_header = false;
  attachments = (99 ∷ [], mode) ∷ [];
}

abbrev two_clients : Daemon
two_clients = record {
  accepts = λ _ _. true;
  events = 0;
  log = [];
  clients = λ i.
      if i == 5
      then some (attached AttachmentMode.writer)
      else if i == 6
      then some (attached AttachmentMode.queue_in)
      else none;
  channels = λ n. if same_bytes n (99 ∷ []) then some shared else none;
}

shared_roles : (r : Role) (id : ℕ) → has_role r id shared ≡ true → (id ≡ 5) ⊎ (id ≡ 6)
unfolding listed
shared_roles Role.queue_reader id h = inr (ground arith)
shared_roles Role.broadcast_reader id h = absurd (cc)
shared_roles Role.publisher id h = inl (ground arith)
shared_roles Role.peer id h = absurd (cc)
shared_roles Role.offerer id h = absurd (cc)
shared_roles Role.receiver id h = absurd (cc)
shared_roles Role.acker id h = absurd (cc)

shared_only :
    (name : List ℕ) (c : ChannelState)
    → two_clients.channels name ≡ some c
    → (same_bytes name (99 ∷ []) ≡ true) × (shared ≡ c)
shared_only name c p = elim (Bool-cases (same_bytes name (99 ∷ []))) [
  | inl h ↦ (h, grind arith)
  | inr h ↦ absurd (grind arith)
]

two_clients-IsRecorded : IsRecorded two_clients
unfolding mentions
two_clients-IsRecorded id name c r p held =
    let (h, e) = shared_only name c p in
    elim (shared_roles r id (subst (λ k. has_role r id k ≡ true) (sym e) held)) [
      | inl q ↦ (attached AttachmentMode.writer, grind arith, grind arith)
      | inr q ↦ (attached AttachmentMode.queue_in, grind arith, grind arith)
    ]

-- Client 6 still reads the channel that client 5 has left.
two_clients_left :
    (close_client 5 two_clients).channels (99 ∷ []) ≡ some (remove_client_from_channel shared 5)
unfolding close_client detach_all detach_from same_bytes maybe_erase_channel is_unused
    channel_has_reader remove_client_from_channel clear_data_ack clear_recv_ready clear_offer
    erase_id
two_clients_left = refl

close_client-has_role_example :
    ((close_client 5 two_clients).clients 5 ≡ none)
    × (has_role Role.publisher 5 (remove_client_from_channel shared 5) ≡ false)
close_client-has_role_example =
    close_client-has_role two_clients 5 (99 ∷ []) (remove_client_from_channel shared 5)
      Role.publisher two_clients-IsRecorded two_clients_left

close_client-IsRecorded_example : IsRecorded (close_client 5 two_clients)
close_client-IsRecorded_example = close_client-IsRecorded two_clients 5 two_clients-IsRecorded

two_clients-Fits : Fits two_clients
two_clients-Fits name c p =
    let (_, e) = shared_only name c p in subst ChannelFits e (omega arith, omega arith)

abbrev sent_frame : List ℕ
sent_frame = (encode greeting).bytes

ingest_bytes-Ends_example : Ends Anything (ingest_bytes (λ _. 0) 5 sent_frame two_clients)
ingest_bytes-Ends_example = ingest_bytes-Ends (λ _. 0) 5 sent_frame two_clients two_clients-Fits

abbrev result : Outcome Unit → List Event
result (Outcome.done _ d) = d.log
result _ = []

-- The publisher's frame goes to the reader, and then the publisher has its Ack.
greeting_delivered :
    result (ingest_bytes (λ _. 0) 5 sent_frame two_clients)
    ≡ Event.wrote 5 encode_ack.bytes
      ∷ Event.wrote 6 (encode_deliver (99 ∷ []) AttachmentMode.queue_in (72 ∷ 105 ∷ [])).bytes
      ∷ []
unfolding ingest_bytes client_at store_client process_client_input input_rounds input_round
    same_client take_header encode_publish encode_frame append_u8 append_u32 append_bytes
    append_string append_each take_frame decode_message decode_fields read read_bytes u8 u32
    opcode_of handle_message handle_kind publish_message open_channel listed publish_to_readers
    same_channel channel_has_reader same_bytes deliver_to_readers broadcast deliver_queued
    store_channel has_client deliver_payload deliver_to_client send_ack send_frame encode_ack
    encode_deliver
greeting_delivered = refl
