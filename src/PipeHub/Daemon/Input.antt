-- ===== src/PipeHub/Daemon/Input.antt =====
-- include/pipe_hub_daemon.hpp: `handle_message`, `process_client_input` and `ingest_bytes`.
use munchkinglang.Prelude.{ℕ, zero, suc, List, ◌++◌, Bool, true, false, ltb, if◌then◌else◌, length}
use munchkinglang.Prelude.{take, drop, get_or}
use munchkinglang.PipeHub.Protocol.{HubOpcode}
use munchkinglang.PipeHub.Protocol.Decode.{Message, little_endian, decode_message}
use munchkinglang.PipeHub.Daemon.{
  ClientState, Step, ◌>>=◌, pure, client_at, same_client, store_client, closing,
}
use munchkinglang.PipeHub.Daemon.Deliver.{publish_message}
use munchkinglang.PipeHub.Daemon.Attach.{register_attachment, unregister_attachment}
use munchkinglang.PipeHub.Daemon.Handshake.{
  handle_channel_offer, handle_channel_recv_ready, handle_channel_data_ack,
}

-- The `switch` of `handle_message`.
unfoldable pub handle_kind : HubOpcode → ℕ → Message → Step Bool
handle_kind HubOpcode.hello id m = do
  client ← client_at id
  _ ← store_client id (record client { pid = m.pid; kind = m.client })
  pure true
handle_kind HubOpcode.bye id m = do _ ← closing id; pure false
handle_kind HubOpcode.attach id m = do _ ← register_attachment id m.channel m.mode; pure true
handle_kind HubOpcode.detach id m = do _ ← unregister_attachment id m.channel m.mode; pure true
handle_kind HubOpcode.publish id m = publish_message id m.channel m.payload
handle_kind HubOpcode.channel_offer id m = handle_channel_offer id m.channel
handle_kind HubOpcode.channel_recv_ready id m = handle_channel_recv_ready id m.channel
handle_kind HubOpcode.channel_data_ack id m = handle_channel_data_ack id m.channel
handle_kind _ id m = pure true

unfoldable pub handle_message : ℕ → Message → Step Bool
handle_message id m = handle_kind m.kind id m

-- Takes the length of the next frame off the input, unless it is known: false for too few bytes.
unfoldable pub take_header : ℕ → ClientState → Step Bool
take_header id client = elim (client.have_header) [
  | true ↦ pure true
  | false ↦ elim (ltb (length client.input) 4) [
    | true ↦ pure false
    | false ↦ do
      _ ← store_client id (record client {
        frame_size = little_endian (take 4 client.input);
        input = drop 4 client.input;
        have_header = true;
      })
      pure true
  ]
]

-- What `decode_message` reads from: `beyond` is the memory behind the input.
abbrev pub memory : (ℕ → ℕ) → ClientState → ℕ → ℕ
memory beyond client i = if ltb i (length client.input) then get_or client.input i 0 else beyond i

-- The frame is there: true to go on with the next.
unfoldable pub take_frame : (ℕ → ℕ) → ℕ → ClientState → Step Bool
take_frame beyond id client =
    let (m, rest) = decode_message (memory beyond client) client.frame_size in
    elim (rest.failed) [
      | true ↦ do _ ← closing id; pure false
      | false ↦ do
        _ ← store_client id (record client {
          input = drop client.frame_size client.input;
          have_header = false;
          frame_size = 0;
        })
        handle_message id m
    ]

-- One round of the loop.
unfoldable pub input_round : (ℕ → ℕ) → ℕ → Step Bool
input_round beyond id = do
  before ← same_client id
  ready ← take_header id before
  elim ready [
    | false ↦ pure false
    | true ↦ do
      client ← same_client id
      elim (ltb (length client.input) client.frame_size) [
        | true ↦ pure false
        | false ↦ take_frame beyond id client
      ]
  ]

-- Each frame takes a header of four bytes off the input, which bounds the rounds.
unfoldable pub input_rounds : (ℕ → ℕ) → ℕ → ℕ → Step Unit
input_rounds beyond zero id = pure tt
input_rounds beyond (suc n) id = do
  again ← input_round beyond id
  elim again [ false ↦ pure tt | true ↦ input_rounds beyond n id ]

unfoldable pub process_client_input : (ℕ → ℕ) → ℕ → Step Unit
process_client_input beyond id = do
  client ← client_at id
  input_rounds beyond (suc (suc (length client.input))) id

unfoldable pub ingest_bytes : (ℕ → ℕ) → ℕ → List ℕ → Step Unit
ingest_bytes beyond id data_bytes = do
  client ← client_at id
  _ ← store_client id (record client { input = client.input ++ data_bytes })
  process_client_input beyond id
