-- ===== src/PipeHub/Daemon/Bounds/Routing.antt =====
-- include/pipe_hub_daemon.hpp: `publish_message` and what it calls, in bounds.
use mathlib.Core.Bool.{◌&&◌, ◌||◌, not}
use munchkinglang.Prelude.{
  ℕ, zero, suc, ◌≤◌, List, [], ◌∷◌, ◌++◌, Bool, false, ◌≡◌, arith, ◌==◌, leb, length, length-append,
}
use munchkinglang.PipeHub.Protocol.{AttachmentMode}
use munchkinglang.PipeHub.Channel.{ChannelState, max_pending, is_empty, channel_has_reader, listed}
use munchkinglang.PipeHub.Daemon.{Outcome}
use munchkinglang.PipeHub.Daemon.Bounds.{
  ChannelFits, Keeps, Anything, then_, pure-Keeps, open_channel-Keeps, same_channel-Keeps,
  store_channel-Keeps, has_client-Keeps, closing-Keeps, either-Keeps, send_ack-Keeps,
  send_error-Keeps, deliver_payload-Keeps, backlog-Keeps,
}
use munchkinglang.PipeHub.Daemon.Deliver.{
  broadcast, deliver_queued, deliver_to_readers, flush_rounds, flush_pending, deliver_to_peers,
  drain_to_ready, push_to_ready, keep_for_peer, publish_to_peers, publish_to_readers,
  publish_message,
}

undefined-Keeps : {A : Type 0} {Q : A → Type 0} → Keeps {A = A} (λ d. Outcome.undefined) Q
undefined-Keeps = record { run = λ d fits. tt }

broadcast-Keeps : (channel payload ids : List ℕ) → Keeps (broadcast channel payload ids) Anything
unfolding broadcast
broadcast-Keeps channel payload [] = pure-Keeps tt tt
broadcast-Keeps channel payload (id ∷ rest) =
    let onward = broadcast-Keeps channel payload rest in
    then_ (has_client-Keeps id) (λ b _.
      either-Keeps b
        (λ _. then_ (deliver_payload-Keeps id channel AttachmentMode.broadcast_in payload) (λ s _.
          either-Keeps s (λ _. onward)
            (λ _. then_ (same_channel-Keeps channel) (λ before _. then_ (closing-Keeps id) (λ _ _.
              then_ (same_channel-Keeps channel) (λ state _.
                either-Keeps (length state.broadcast_readers == length before.broadcast_readers)
                  (λ _. onward) (λ _. undefined-Keeps)))))))
        (λ _. onward))

deliver_queued-Keeps : (channel payload : List ℕ) → Keeps (deliver_queued channel payload) Anything
unfolding deliver_queued
deliver_queued-Keeps channel payload = then_ (same_channel-Keeps channel) (λ state fits.
    either-Keeps (is_empty state.queue_readers) (λ _. pure-Keeps tt tt)
      (λ _. then_ (store_channel-Keeps channel _ fits) (λ _ _. then_ (has_client-Keeps _) (λ b _.
        either-Keeps b
          (λ _.
            then_ (deliver_payload-Keeps _ channel AttachmentMode.queue_in payload)
              (λ s _. either-Keeps s (λ _. pure-Keeps tt tt) (λ _. closing-Keeps _)))
          (λ _. pure-Keeps tt tt)))))

deliver_to_readers-Keeps :
    (channel payload : List ℕ) → Keeps (deliver_to_readers channel payload) Anything
unfolding deliver_to_readers
deliver_to_readers-Keeps channel payload = then_ (open_channel-Keeps channel) (λ state _.
    then_ (broadcast-Keeps channel payload state.broadcast_readers)
      (λ _ _. deliver_queued-Keeps channel payload))

flush_rounds-Keeps : (n : ℕ) (channel : List ℕ) → Keeps (flush_rounds n channel) Anything
unfolding flush_rounds
flush_rounds-Keeps zero channel = pure-Keeps tt tt
flush_rounds-Keeps (suc n) channel = then_ (same_channel-Keeps channel) (λ state (p, q).
    backlog-Keeps state.pending (pure-Keeps tt tt) (λ payload rest le.
      either-Keeps (channel_has_reader state)
        (λ _. then_ (store_channel-Keeps channel _ (omega arith, q)) (λ _ _.
          then_ (deliver_to_readers-Keeps channel payload) (λ _ _. flush_rounds-Keeps n channel)))
        (λ _. pure-Keeps tt tt)))

pub flush_pending-Keeps : (channel : List ℕ) → Keeps (flush_pending channel) Anything
unfolding flush_pending
flush_pending-Keeps channel =
    then_ (open_channel-Keeps channel)
      (λ state _. flush_rounds-Keeps (suc (length state.pending)) channel)

deliver_to_peers-Keeps :
    (writer : ℕ) (channel payload peers : List ℕ) (delivered : Bool)
    → Keeps (deliver_to_peers writer channel payload peers delivered) Anything
unfolding deliver_to_peers
deliver_to_peers-Keeps writer channel payload [] delivered = pure-Keeps delivered tt
deliver_to_peers-Keeps writer channel payload (peer ∷ rest) delivered =
    either-Keeps (peer == writer)
      (λ _. deliver_to_peers-Keeps writer channel payload rest delivered)
      (λ _. then_ (has_client-Keeps peer) (λ b _.
        either-Keeps b
          (λ _.
            then_ (deliver_payload-Keeps peer channel AttachmentMode.channel_peer payload)
              (λ s _. deliver_to_peers-Keeps writer channel payload rest (s || delivered)))
          (λ _. deliver_to_peers-Keeps writer channel payload rest delivered)))

drain_to_ready-Keeps :
    (ready : ℕ) (channel : List ℕ) (n : ℕ) (items : List (List ℕ))
    → length items ≤ n
    → Keeps (drain_to_ready ready channel items) (λ left. length left ≤ n)
unfolding drain_to_ready
drain_to_ready-Keeps ready channel n [] h = pure-Keeps [] h
drain_to_ready-Keeps ready channel n (item ∷ rest) h =
    then_ (deliver_payload-Keeps ready channel AttachmentMode.channel_peer item) (λ s _.
      either-Keeps s (λ _. drain_to_ready-Keeps ready channel n rest (omega arith))
        (λ _. pure-Keeps rest (omega arith)))

push_to_ready-Keeps :
    (writer : ℕ) (channel : List ℕ) → Keeps (push_to_ready writer channel) Anything
unfolding push_to_ready
push_to_ready-Keeps writer channel = then_ (same_channel-Keeps channel) (λ state (p, q).
    either-Keeps (state.have_recv_ready && not (state.recv_ready == writer))
      (λ _. then_ (has_client-Keeps state.recv_ready) (λ b _.
        either-Keeps b
          (λ _.
            then_ (drain_to_ready-Keeps state.recv_ready channel max_pending state.pending p)
              (λ left le. store_channel-Keeps channel _ (le, q)))
          (λ _. pure-Keeps tt tt)))
      (λ _. pure-Keeps tt tt))

-- A payload is stored only where the backlog has room for it.
stored-Fits :
    (c : ChannelState) (payload : List ℕ)
    → ChannelFits c
    → leb max_pending (length c.pending) ≡ false
    → ChannelFits (record c { pending = c.pending ++ (payload ∷ []) })
stored-Fits c payload (p, q) h = (ground (arith, h, length-append c.pending (payload ∷ [])), q)

keep_for_peer-Keeps :
    (writer : ℕ) (channel payload : List ℕ) → Keeps (keep_for_peer writer channel payload) Anything
unfolding keep_for_peer
keep_for_peer-Keeps writer channel payload = then_ (same_channel-Keeps channel) (λ state fits.
    either-Keeps (leb max_pending (length state.pending)) (λ _. send_error-Keeps writer _)
      (λ h.
        then_ (store_channel-Keeps channel _ (stored-Fits state payload fits h))
          (λ _ _. then_ (push_to_ready-Keeps writer channel) (λ _ _. send_ack-Keeps writer))))

publish_to_readers-Keeps :
    (writer : ℕ) (channel payload : List ℕ)
    → Keeps (publish_to_readers writer channel payload) Anything
unfolding publish_to_readers
publish_to_readers-Keeps writer channel payload = then_ (same_channel-Keeps channel) (λ state fits.
    either-Keeps (channel_has_reader state)
      (λ _. then_ (deliver_to_readers-Keeps channel payload) (λ _ _. send_ack-Keeps writer))
      (λ _.
        either-Keeps (leb max_pending (length state.pending)) (λ _. send_error-Keeps writer _)
          (λ h.
            then_ (store_channel-Keeps channel _ (stored-Fits state payload fits h))
              (λ _ _. send_ack-Keeps writer))))

pub publish_message-Keeps :
    (writer : ℕ) (channel payload : List ℕ)
    → Keeps (publish_message writer channel payload) Anything
unfolding publish_message publish_to_peers
publish_message-Keeps writer channel payload = then_ (open_channel-Keeps channel) (λ state _.
    either-Keeps (listed writer state.channel_peers)
      (λ _. then_ (same_channel-Keeps channel) (λ s _.
        then_ (deliver_to_peers-Keeps writer channel payload s.channel_peers false) (λ delivered _.
          either-Keeps delivered (λ _. send_ack-Keeps writer)
            (λ _. keep_for_peer-Keeps writer channel payload))))
      (λ _. publish_to_readers-Keeps writer channel payload))
