-- ===== src/PipeHub/Daemon/Attach.antt =====
-- include/pipe_hub_daemon.hpp: `register_attachment` and `unregister_attachment`.
use mathlib.Core.Bool.{◌&&◌}
use munchkinglang.Prelude.{
  ℕ, zero, suc, List, [], ◌∷◌, ◌++◌, Bool, true, false, leb, ◌==◌, if◌then◌else◌, length,
}
use munchkinglang.Mir.Runtime.{same_bytes}
use munchkinglang.PipeHub.Protocol.{AttachmentMode, mode_byte}
use munchkinglang.PipeHub.Channel.{ChannelState, is_empty}
use munchkinglang.PipeHub.Daemon.{
  Outcome, Step, ◌>>=◌, pure, open_channel, same_channel, store_channel, client_at, same_client,
  store_client, closing, maybe_erase_channel, detach_from, send_ack, send_error, deliver_payload,
}
use munchkinglang.PipeHub.Daemon.Deliver.{flush_pending, in_backquotes, pipe_word, channel_word}

unfoldable pub is_reader_mode : AttachmentMode → Bool
is_reader_mode AttachmentMode.queue_in = true
is_reader_mode AttachmentMode.broadcast_in = true
is_reader_mode _ = false

unfoldable pub is_peer_mode : AttachmentMode → Bool
is_peer_mode AttachmentMode.channel_peer = true
is_peer_mode _ = false

-- The `switch` on the mode.
unfoldable pub join : ℕ → AttachmentMode → ChannelState → ChannelState
join id AttachmentMode.writer c = record c { writers = c.writers ++ (id ∷ []) }
join id AttachmentMode.broadcast_in c = record c {
  broadcast_readers = c.broadcast_readers ++ (id ∷ []);
}
join id AttachmentMode.queue_in c = record c { queue_readers = c.queue_readers ++ (id ∷ []) }
join id AttachmentMode.channel_peer c = record c { channel_peers = c.channel_peers ++ (id ∷ []) }
join id (AttachmentMode.unknown_mode _) c = c

-- "pipe `…` has no publisher; open pipe(name, out) first"
abbrev pub no_publisher_text : List ℕ → List ℕ
no_publisher_text channel =
    pipe_word
    ++ (32
        ∷ (in_backquotes channel
            ++ (32 ∷ 104 ∷ 97 ∷ 115 ∷ 32 ∷ 110 ∷ 111 ∷ 32 ∷ 112 ∷ 117 ∷ 98 ∷ 108 ∷ 105 ∷ 115 ∷ 104
                ∷ 101 ∷ 114 ∷ 59 ∷ 32 ∷ 111 ∷ 112 ∷ 101 ∷ 110 ∷ 32 ∷ 112 ∷ 105 ∷ 112 ∷ 101 ∷ 40
                ∷ 110 ∷ 97 ∷ 109 ∷ 101 ∷ 44 ∷ 32 ∷ 111 ∷ 117 ∷ 116 ∷ 41 ∷ 32 ∷ 102 ∷ 105 ∷ 114 ∷ 115
                ∷ 116 ∷ [])))

-- "channel `…` already has two peers"
abbrev pub two_peers_text : List ℕ → List ℕ
two_peers_text channel =
    channel_word
    ++ (32
        ∷ (in_backquotes channel
            ++ (32 ∷ 97 ∷ 108 ∷ 114 ∷ 101 ∷ 97 ∷ 100 ∷ 121 ∷ 32 ∷ 104 ∷ 97 ∷ 115 ∷ 32 ∷ 116 ∷ 119
                ∷ 111 ∷ 32 ∷ 112 ∷ 101 ∷ 101 ∷ 114 ∷ 115 ∷ [])))

unfoldable pub refuse : ℕ → List ℕ → List ℕ → Step Bool
refuse id channel text = do
  _ ← send_error id text
  λ d. Outcome.done false (maybe_erase_channel channel d)

-- The backlog goes to a new peer. It is bounded by the length of `pending`.
unfoldable pub drain_to_peer : ℕ → ℕ → List ℕ → Step Bool
drain_to_peer zero id channel = pure true
drain_to_peer (suc n) id channel = do
  state ← same_channel channel
  elim (state.pending) [
    | [] ↦ pure true
    | payload ∷ rest ↦ do
      _ ← store_channel channel (record state { pending = rest })
      _ ← same_client id
      sent ← deliver_payload id channel AttachmentMode.channel_peer payload
      elim sent [ true ↦ drain_to_peer n id channel | false ↦ do _ ← closing id; pure false ]
  ]

-- What follows the Ack.
unfoldable pub drain_backlog : ℕ → List ℕ → AttachmentMode → Step Bool
drain_backlog id channel mode = elim (is_reader_mode mode) [
  | true ↦ do _ ← flush_pending channel; pure true
  | false ↦ elim (is_peer_mode mode) [
    | false ↦ pure true
    | true ↦ do state ← same_channel channel; drain_to_peer (suc (length state.pending)) id channel
  ]
]

unfoldable pub admit : ℕ → List ℕ → AttachmentMode → ChannelState → Step Bool
admit id channel mode state = do
  client ← client_at id
  _ ← store_client id (record client { attachments = client.attachments ++ ((channel, mode) ∷ []) })
  _ ← store_channel channel (join id mode state)
  acked ← send_ack id
  elim acked [ false ↦ pure false | true ↦ drain_backlog id channel mode ]

unfoldable pub register_attachment : ℕ → List ℕ → AttachmentMode → Step Bool
register_attachment id channel mode = do
  state ← open_channel channel
  elim (is_reader_mode mode && is_empty state.writers) [
    | true ↦ refuse id channel (no_publisher_text channel)
    | false ↦ elim (is_peer_mode mode && leb 2 (length state.channel_peers)) [
      | true ↦ refuse id channel (two_peers_text channel)
      | false ↦ admit id channel mode state
    ]
  ]

-- `std::remove` of the pair.
unfoldable pub forget :
    List ℕ → AttachmentMode → List (List ℕ × AttachmentMode) → List (List ℕ × AttachmentMode)
forget channel mode [] = []
forget channel mode ((n, m) ∷ rest) =
    if same_bytes n channel && (mode_byte m == mode_byte mode)
    then forget channel mode rest
    else ((n, m) ∷ forget channel mode rest)

unfoldable pub unregister_attachment : ℕ → List ℕ → AttachmentMode → Step Unit
unregister_attachment id channel mode = do
  client ← client_at id
  _ ← store_client id (record client { attachments = forget channel mode client.attachments })
  λ d. Outcome.done tt (detach_from id channel d)
