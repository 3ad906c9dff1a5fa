-- ===== src/PipeHub/Daemon/Deliver.antt =====
-- include/pipe_hub_daemon.hpp: `deliver_to_readers`, `flush_pending` and `publish_message`.
use mathlib.Core.Bool.{◌||◌, ◌&&◌, not}
use munchkinglang.Prelude.{
  ℕ, zero, suc, ◌+◌, ◌%◌, ◌^◌, List, [], ◌∷◌, ◌++◌, Bool, true, false, leb, ◌==◌, length,
}
use munchkinglang.Prelude.{get_or}
use munchkinglang.PipeHub.Protocol.{AttachmentMode}
use munchkinglang.PipeHub.Channel.{max_pending, listed, is_empty, channel_has_reader}
use munchkinglang.PipeHub.Daemon.{
  Outcome, Step, ◌>>=◌, pure, open_channel, same_channel, store_channel, has_client, closing,
  send_ack, send_error, deliver_payload,
}

-- The loop over `broadcast_readers`. To close a client that stands in that vector moves its end,
-- and the loop that goes on is undefined.
unfoldable pub broadcast : List ℕ → List ℕ → List ℕ → Step Unit
broadcast channel payload [] = pure tt
broadcast channel payload (id ∷ rest) = do
  found ← has_client id
  elim found [
    | false ↦ broadcast channel payload rest
    | true ↦ do
      sent ← deliver_payload id channel AttachmentMode.broadcast_in payload
      elim sent [
        | true ↦ broadcast channel payload rest
        | false ↦ do
          before ← same_channel channel
          _ ← closing id
          state ← same_channel channel
          elim (length state.broadcast_readers == length before.broadcast_readers) [
            | true ↦ broadcast channel payload rest
            | false ↦ λ d. Outcome.undefined
          ]
      ]
  ]

-- The turn of one reader of the queue.
unfoldable pub deliver_queued : List ℕ → List ℕ → Step Unit
deliver_queued channel payload = do
  state ← same_channel channel
  elim (is_empty state.queue_readers) [
    | true ↦ pure tt
    | false ↦ do
      let id = get_or state.queue_readers (state.queue_cursor % length state.queue_readers) 0
      _ ← store_channel channel (record state { queue_cursor = (state.queue_cursor + 1) % 2 ^ 64 })
      found ← has_client id
      elim found [
        | false ↦ pure tt
        | true ↦ do
          sent ← deliver_payload id channel AttachmentMode.queue_in payload
          elim sent [ true ↦ pure tt | false ↦ closing id ]
      ]
  ]

unfoldable pub deliver_to_readers : List ℕ → List ℕ → Step Unit
deliver_to_readers channel payload = do
  state ← open_channel channel
  _ ← broadcast channel payload state.broadcast_readers
  deliver_queued channel payload

-- Each round takes a payload off `pending`, whose length bounds the rounds.
unfoldable pub flush_rounds : ℕ → List ℕ → Step Unit
flush_rounds zero channel = pure tt
flush_rounds (suc n) channel = do
  state ← same_channel channel
  elim (state.pending) [
    | [] ↦ pure tt
    | payload ∷ rest ↦ elim (channel_has_reader state) [
      | false ↦ pure tt
      | true ↦ do
        _ ← store_channel channel (record state { pending = rest })
        _ ← deliver_to_readers channel payload
        flush_rounds n channel
    ]
  ]

unfoldable pub flush_pending : List ℕ → Step Unit
flush_pending channel = do
  state ← open_channel channel
  flush_rounds (suc (length state.pending)) channel

-- The loop that delivers to every peer but the writer: whether a write went through.
unfoldable pub deliver_to_peers : ℕ → List ℕ → List ℕ → List ℕ → Bool → Step Bool
deliver_to_peers writer channel payload [] delivered = pure delivered
deliver_to_peers writer channel payload (peer ∷ rest) delivered = elim (peer == writer) [
  | true ↦ deliver_to_peers writer channel payload rest delivered
  | false ↦ do
    found ← has_client peer
    elim found [
      | false ↦ deliver_to_peers writer channel payload rest delivered
      | true ↦ do
        sent ← deliver_payload peer channel AttachmentMode.channel_peer payload
        deliver_to_peers writer channel payload rest (sent || delivered)
    ]
]

-- The loop that sends the backlog to a ready peer: what is left of it.
unfoldable pub drain_to_ready : ℕ → List ℕ → List (List ℕ) → Step (List (List ℕ))
drain_to_ready ready channel [] = pure []
drain_to_ready ready channel (item ∷ rest) = do
  sent ← deliver_payload ready channel AttachmentMode.channel_peer item
  elim sent [ true ↦ drain_to_ready ready channel rest | false ↦ pure rest ]

abbrev pub in_backquotes : List ℕ → List ℕ
in_backquotes channel = 96 ∷ (channel ++ (96 ∷ []))

-- "channel `…` pending queue is full" and "pipe `…` pending queue is full"
abbrev pub full_text : List ℕ → List ℕ → List ℕ
full_text what channel =
    what
    ++ (32
        ∷ (in_backquotes channel
            ++ (32 ∷ 112 ∷ 101 ∷ 110 ∷ 100 ∷ 105 ∷ 110 ∷ 103 ∷ 32 ∷ 113 ∷ 117 ∷ 101 ∷ 117 ∷ 101 ∷ 32
                ∷ 105 ∷ 115 ∷ 32 ∷ 102 ∷ 117 ∷ 108 ∷ 108 ∷ [])))

abbrev pub channel_word : List ℕ
channel_word = 99 ∷ 104 ∷ 97 ∷ 110 ∷ 110 ∷ 101 ∷ 108 ∷ []

abbrev pub pipe_word : List ℕ
pipe_word = 112 ∷ 105 ∷ 112 ∷ 101 ∷ []

-- The peer that has announced RecvReady takes the backlog at once.
unfoldable pub push_to_ready : ℕ → List ℕ → Step Unit
push_to_ready writer channel = do
  state ← same_channel channel
  elim (state.have_recv_ready && not (state.recv_ready == writer)) [
    | false ↦ pure tt
    | true ↦ do
      found ← has_client state.recv_ready
      elim found [
        | false ↦ pure tt
        | true ↦ do
          left ← drain_to_ready state.recv_ready channel state.pending
          store_channel channel (record state { pending = left })
      ]
  ]

-- A payload that no peer has taken.
unfoldable pub keep_for_peer : ℕ → List ℕ → List ℕ → Step Bool
keep_for_peer writer channel payload = do
  state ← same_channel channel
  elim (leb max_pending (length state.pending)) [
    | true ↦ send_error writer (full_text channel_word channel)
    | false ↦ do
      _ ← store_channel channel (record state { pending = state.pending ++ (payload ∷ []) })
      _ ← push_to_ready writer channel
      send_ack writer
  ]

unfoldable pub publish_to_peers : ℕ → List ℕ → List ℕ → Step Bool
publish_to_peers writer channel payload = do
  state ← same_channel channel
  delivered ← deliver_to_peers writer channel payload state.channel_peers false
  elim delivered [ true ↦ send_ack writer | false ↦ keep_for_peer writer channel payload ]

unfoldable pub publish_to_readers : ℕ → List ℕ → List ℕ → Step Bool
publish_to_readers writer channel payload = do
  state ← same_channel channel
  elim (channel_has_reader state) [
    | true ↦ do _ ← deliver_to_readers channel payload; send_ack writer
    | false ↦ elim (leb max_pending (length state.pending)) [
      | true ↦ send_error writer (full_text pipe_word channel)
      | false ↦ do
        _ ← store_channel channel (record state { pending = state.pending ++ (payload ∷ []) })
        send_ack writer
    ]
  ]

unfoldable pub publish_message : ℕ → List ℕ → List ℕ → Step Bool
publish_message writer channel payload = do
  state ← open_channel channel
  elim (listed writer state.channel_peers) [
    | true ↦ publish_to_peers writer channel payload
    | false ↦ publish_to_readers writer channel payload
  ]
