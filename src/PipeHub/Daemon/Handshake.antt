-- ===== src/PipeHub/Daemon/Handshake.antt =====
-- include/pipe_hub_daemon.hpp: the handshake of a channel's two peers.
use mathlib.Core.Bool.{◌||◌, ◌&&◌, not}
use munchkinglang.Prelude.{ℕ, zero, suc, List, [], ◌∷◌, ◌++◌, Bool, true, false, ◌==◌, length}
use munchkinglang.PipeHub.Protocol.{HubOpcode, AttachmentMode, encode_channel_op}
use munchkinglang.PipeHub.Channel.{ChannelState, listed, other_channel_peer}
use munchkinglang.PipeHub.Daemon.{
  Step, ◌>>=◌, pure, open_channel, same_channel, store_channel, client_at, has_client, closing,
  send_error, deliver_to_client, deliver_payload,
}
use munchkinglang.PipeHub.Daemon.Deliver.{in_backquotes, channel_word}

-- "not attached to channel `…`"
abbrev pub not_attached_text : List ℕ → List ℕ
not_attached_text channel =
    (110 ∷ 111 ∷ 116 ∷ 32 ∷ 97 ∷ 116 ∷ 116 ∷ 97 ∷ 99 ∷ 104 ∷ 101 ∷ 100 ∷ 32 ∷ 116 ∷ 111 ∷ 32 ∷ [])
    ++ (channel_word ++ (32 ∷ in_backquotes channel))

unfoldable pub send_op : ℕ → HubOpcode → List ℕ → Step Bool
send_op id op channel = deliver_to_client id (encode_channel_op op channel).bytes

abbrev pub no_offer : ChannelState → ChannelState
no_offer c = record c { have_offer = false; offer_from = 0 }

-- Both peers have offered.
unfoldable pub collide : ℕ → ℕ → List ℕ → Step Bool
collide id other channel = do
  _ ← client_at id
  _ ← send_op id HubOpcode.channel_busy channel
  found ← has_client other
  elim found [
    | false ↦ pure true
    | true ↦ do _ ← send_op other HubOpcode.channel_busy channel; pure true
  ]

-- The offer of a client that is attached.
unfoldable pub take_offer : ℕ → List ℕ → ChannelState → Step Bool
take_offer id channel state = elim (state.have_offer && not (state.offer_from == id)) [
  | true ↦ do _ ← store_channel channel (no_offer state); collide id state.offer_from channel
  | false ↦
      elim (not (other_channel_peer state.channel_peers id == 0)
        || (state.have_recv_ready && not (state.recv_ready == id))) [
          | true ↦ do
            _ ←
                store_channel channel
                  (record (no_offer state) { have_recv_ready = false; recv_ready = 0 })
            _ ← client_at id
            send_op id HubOpcode.channel_accept channel
          | false ↦ do
            _ ← store_channel channel (record state { have_offer = true; offer_from = id })
            pure true
        ]
]

unfoldable pub handle_channel_offer : ℕ → List ℕ → Step Bool
handle_channel_offer id channel = do
  state ← open_channel channel
  elim (listed id state.channel_peers) [
    | false ↦ send_error id (not_attached_text channel)
    | true ↦ take_offer id channel state
  ]

-- Grants the offer that waits.
unfoldable pub grant_offer : ℕ → List ℕ → ChannelState → Step Unit
grant_offer id channel state = elim (state.have_offer && not (state.offer_from == id)) [
  | false ↦ pure tt
  | true ↦ do
    _ ← store_channel channel (no_offer state)
    _ ← client_at state.offer_from
    _ ← send_op state.offer_from HubOpcode.channel_accept channel
    pure tt
]

-- The backlog goes to the receiver: at most `n` payloads of it.
unfoldable pub drain_to_receiver : ℕ → ℕ → List ℕ → Step Bool
drain_to_receiver zero id channel = pure true
drain_to_receiver (suc n) id channel = do
  state ← same_channel channel
  elim (state.pending) [
    | [] ↦ pure true
    | payload ∷ rest ↦ do
      _ ← store_channel channel (record state { pending = rest })
      sent ← deliver_payload id channel AttachmentMode.channel_peer payload
      elim sent [ true ↦ drain_to_receiver n id channel | false ↦ do _ ← closing id; pure false ]
  ]

unfoldable pub receive_backlog : ℕ → List ℕ → Step Bool
receive_backlog id channel = do
  found ← has_client id
  elim found [
    | false ↦ pure true
    | true ↦ do
      state ← same_channel channel
      drain_to_receiver (suc (length state.pending)) id channel
  ]

unfoldable pub become_ready : ℕ → List ℕ → Step Bool
become_ready id channel = do
  state ← same_channel channel
  _ ← store_channel channel (record state { have_recv_ready = true; recv_ready = id })
  pure true

unfoldable pub handle_channel_recv_ready : ℕ → List ℕ → Step Bool
handle_channel_recv_ready id channel = do
  state ← open_channel channel
  elim (listed id state.channel_peers) [
    | false ↦ send_error id (not_attached_text channel)
    | true ↦ do
      _ ← grant_offer id channel state
      kept ← receive_backlog id channel
      elim kept [ false ↦ pure false | true ↦ become_ready id channel ]
  ]

unfoldable pub handle_channel_data_ack : ℕ → List ℕ → Step Bool
handle_channel_data_ack id channel = do
  state ← open_channel channel
  _ ← store_channel channel (record state { have_awaiting_data_ack = false; awaiting_data_ack = 0 })
  pure true
