-- ===== src/PipeHub/Daemon/Bounds/Dispatch.antt =====
-- include/pipe_hub_daemon.hpp: `handle_message` and `ingest_bytes`, in bounds.
use munchkinglang.Prelude.{ℕ, zero, suc, List, ◌++◌, true, false, ltb, length}
use munchkinglang.PipeHub.Protocol.{HubOpcode}
use munchkinglang.PipeHub.Protocol.Decode.{Message, decode_message}
use munchkinglang.PipeHub.Daemon.{ClientState, Daemon}
use munchkinglang.PipeHub.Daemon.Bounds.{
  Fits, Ends, Keeps, Anything, then_, pure-Keeps, client_at-Keeps, same_client-Keeps,
  store_client-Keeps, closing-Keeps, either-Keeps,
}
use munchkinglang.PipeHub.Daemon.Bounds.Routing.{publish_message-Keeps}
use munchkinglang.PipeHub.Daemon.Input.{
  memory, handle_kind, handle_message, take_header, take_frame, input_round, input_rounds,
  process_client_input, ingest_bytes,
}
use munchkinglang.PipeHub.Daemon.Bounds.Peers.{
  register_attachment-Keeps, unregister_attachment-Keeps, handle_channel_offer-Keeps,
  handle_channel_recv_ready-Keeps, handle_channel_data_ack-Keeps,
}

handle_kind-Keeps : (op : HubOpcode) (id : ℕ) (m : Message) → Keeps (handle_kind op id m) Anything
unfolding handle_kind
handle_kind-Keeps HubOpcode.hello id m =
    then_ (client_at-Keeps id)
      (λ client _. then_ (store_client-Keeps id _) (λ _ _. pure-Keeps true tt))
handle_kind-Keeps HubOpcode.bye id m = then_ (closing-Keeps id) (λ _ _. pure-Keeps false tt)
handle_kind-Keeps HubOpcode.attach id m =
    then_ (register_attachment-Keeps id m.channel m.mode) (λ _ _. pure-Keeps true tt)
handle_kind-Keeps HubOpcode.detach id m =
    then_ (unregister_attachment-Keeps id m.channel m.mode) (λ _ _. pure-Keeps true tt)
handle_kind-Keeps HubOpcode.publish id m = publish_message-Keeps id m.channel m.payload
handle_kind-Keeps HubOpcode.channel_offer id m = handle_channel_offer-Keeps id m.channel
handle_kind-Keeps HubOpcode.channel_recv_ready id m = handle_channel_recv_ready-Keeps id m.channel
handle_kind-Keeps HubOpcode.channel_data_ack id m = handle_channel_data_ack-Keeps id m.channel
handle_kind-Keeps op id m = pure-Keeps true tt

take_header-Keeps : (id : ℕ) (client : ClientState) → Keeps (take_header id client) Anything
unfolding take_header
take_header-Keeps id client =
    either-Keeps client.have_header (λ _. pure-Keeps true tt)
      (λ _.
        either-Keeps (ltb (length client.input) 4) (λ _. pure-Keeps false tt)
          (λ _. then_ (store_client-Keeps id _) (λ _ _. pure-Keeps true tt)))

take_frame-Keeps :
    (beyond : ℕ → ℕ) (id : ℕ) (client : ClientState) → Keeps (take_frame beyond id client) Anything
unfolding take_frame handle_message
take_frame-Keeps beyond id client =
    let decoded = decode_message (memory beyond client) client.frame_size in
    either-Keeps ((decoded.1).failed) (λ _. then_ (closing-Keeps id) (λ _ _. pure-Keeps false tt))
      (λ _.
        then_ (store_client-Keeps id _)
          (λ _ _. handle_kind-Keeps ((decoded.0).kind) id (decoded.0)))

input_rounds-Keeps : (beyond : ℕ → ℕ) (n id : ℕ) → Keeps (input_rounds beyond n id) Anything
unfolding input_rounds input_round
input_rounds-Keeps beyond zero id = pure-Keeps tt tt
input_rounds-Keeps beyond (suc n) id =
    then_
      (then_ (same_client-Keeps id) (λ before _. then_ (take_header-Keeps id before) (λ ready _.
        either-Keeps ready
          (λ _. then_ (same_client-Keeps id) (λ client _.
            either-Keeps (ltb (length client.input) client.frame_size) (λ _. pure-Keeps false tt)
              (λ _. take_frame-Keeps beyond id client)))
          (λ _. pure-Keeps false tt))))
      (λ again _. either-Keeps again (λ _. input_rounds-Keeps beyond n id) (λ _. pure-Keeps tt tt))

-- Whatever bytes a client sends, and whichever writes the transport refuses: where each channel's
-- backlog has at most 4096 payloads and its peers are at most two, the same holds when the bytes have
-- been handled, unless that ends in an exception or in undefined behaviour.
pub ingest_bytes-Ends :
    (beyond : ℕ → ℕ) (id : ℕ) (data_bytes : List ℕ) (d : Daemon)
    → Fits d
    → Ends Anything (ingest_bytes beyond id data_bytes d)
unfolding ingest_bytes process_client_input
ingest_bytes-Ends beyond id data_bytes d =
    (then_ (client_at-Keeps id) (λ client _.
        then_ (store_client-Keeps id (record client { input = client.input ++ data_bytes })) (λ _ _.
          then_ (client_at-Keeps id)
            (λ c _. input_rounds-Keeps beyond (suc (suc (length c.input))) id)))).run
      d
