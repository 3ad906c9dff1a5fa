-- ===== src/PipeHub/Daemon/Bounds/Peers.antt =====
-- include/pipe_hub_daemon.hpp: attachment and the handshake, in bounds.
use mathlib.Core.Bool.{◌&&◌, ◌||◌, not}
use munchkinglang.Prelude.{
  ℕ, zero, suc, List, [], ◌∷◌, true, false, ◌≡◌, arith, ◌==◌, leb, length, length-append,
}
use munchkinglang.PipeHub.Protocol.{AttachmentMode, HubOpcode}
use munchkinglang.PipeHub.Channel.{ChannelState, is_empty, listed, other_channel_peer}
use munchkinglang.PipeHub.Daemon.Bounds.{
  ChannelFits, Keeps, Anything, then_, pure-Keeps, open_channel-Keeps, same_channel-Keeps,
  store_channel-Keeps, client_at-Keeps, same_client-Keeps, store_client-Keeps, has_client-Keeps,
  deliver_to_client-Keeps, closing-Keeps, detaching-Keeps, unused-Keeps, either-Keeps,
  send_ack-Keeps, send_error-Keeps, deliver_payload-Keeps, backlog-Keeps,
}
use munchkinglang.PipeHub.Daemon.Bounds.Routing.{flush_pending-Keeps}
use munchkinglang.PipeHub.Daemon.Attach.{
  is_reader_mode, is_peer_mode, join, refuse, drain_to_peer, drain_backlog, admit,
  register_attachment, unregister_attachment,
}
use munchkinglang.PipeHub.Daemon.Handshake.{
  send_op, collide, take_offer, handle_channel_offer, grant_offer, drain_to_receiver,
  receive_backlog, become_ready, handle_channel_recv_ready, handle_channel_data_ack,
}

refuse-Keeps : (id : ℕ) (channel text : List ℕ) → Keeps (refuse id channel text) Anything
unfolding refuse
refuse-Keeps id channel text = then_ (send_error-Keeps id text) (λ _ _. unused-Keeps channel)

drain_to_peer-Keeps : (n id : ℕ) (channel : List ℕ) → Keeps (drain_to_peer n id channel) Anything
unfolding drain_to_peer
drain_to_peer-Keeps zero id channel = pure-Keeps true tt
drain_to_peer-Keeps (suc n) id channel = then_ (same_channel-Keeps channel) (λ state (p, q).
    backlog-Keeps state.pending (pure-Keeps true tt) (λ payload rest le.
      then_ (store_channel-Keeps channel _ (omega arith, q)) (λ _ _.
        then_ (same_client-Keeps id) (λ _ _.
          then_ (deliver_payload-Keeps id channel AttachmentMode.channel_peer payload) (λ s _.
            either-Keeps s (λ _. drain_to_peer-Keeps n id channel)
              (λ _. then_ (closing-Keeps id) (λ _ _. pure-Keeps false tt)))))))

drain_backlog-Keeps :
    (id : ℕ) (channel : List ℕ) (mode : AttachmentMode)
    → Keeps (drain_backlog id channel mode) Anything
unfolding drain_backlog
drain_backlog-Keeps id channel mode =
    either-Keeps (is_reader_mode mode)
      (λ _. then_ (flush_pending-Keeps channel) (λ _ _. pure-Keeps true tt))
      (λ _.
        either-Keeps (is_peer_mode mode)
          (λ _.
            then_ (same_channel-Keeps channel)
              (λ state _. drain_to_peer-Keeps (suc (length state.pending)) id channel))
          (λ _. pure-Keeps true tt))

-- A peer joins only where there are not two.
join-Fits :
    (id : ℕ) (mode : AttachmentMode) (c : ChannelState)
    → ChannelFits c
    → (is_peer_mode mode && leb 2 (length c.channel_peers)) ≡ false
    → ChannelFits (join id mode c)
unfolding join is_peer_mode
join-Fits id AttachmentMode.writer c fits h = fits
join-Fits id AttachmentMode.broadcast_in c fits h = fits
join-Fits id AttachmentMode.queue_in c fits h = fits
join-Fits id AttachmentMode.channel_peer c (p, q) h =
    (p, ground (arith, h, length-append c.channel_peers (id ∷ [])))
join-Fits id (AttachmentMode.unknown_mode n) c fits h = fits

admit-Keeps :
    (id : ℕ) (channel : List ℕ) (mode : AttachmentMode) (state : ChannelState)
    → ChannelFits (join id mode state)
    → Keeps (admit id channel mode state) Anything
unfolding admit
admit-Keeps id channel mode state fits = then_ (client_at-Keeps id) (λ client _.
    then_ (store_client-Keeps id _) (λ _ _. then_ (store_channel-Keeps channel _ fits) (λ _ _.
      then_ (send_ack-Keeps id) (λ acked _.
        either-Keeps acked (λ _. drain_backlog-Keeps id channel mode) (λ _. pure-Keeps false tt)))))

pub register_attachment-Keeps :
    (id : ℕ) (channel : List ℕ) (mode : AttachmentMode)
    → Keeps (register_attachment id channel mode) Anything
unfolding register_attachment
register_attachment-Keeps id channel mode = then_ (open_channel-Keeps channel) (λ state fits.
    either-Keeps (is_reader_mode mode && is_empty state.writers) (λ _. refuse-Keeps id channel _)
      (λ _.
        either-Keeps (is_peer_mode mode && leb 2 (length state.channel_peers))
          (λ _. refuse-Keeps id channel _)
          (λ h. admit-Keeps id channel mode state (join-Fits id mode state fits h))))

pub unregister_attachment-Keeps :
    (id : ℕ) (channel : List ℕ) (mode : AttachmentMode)
    → Keeps (unregister_attachment id channel mode) Anything
unfolding unregister_attachment
unregister_attachment-Keeps id channel mode =
    then_ (client_at-Keeps id)
      (λ client _. then_ (store_client-Keeps id _) (λ _ _. detaching-Keeps id channel))

send_op-Keeps :
    (id : ℕ) (op : HubOpcode) (channel : List ℕ) → Keeps (send_op id op channel) Anything
unfolding send_op
send_op-Keeps id op channel = deliver_to_client-Keeps id _

collide-Keeps : (id other : ℕ) (channel : List ℕ) → Keeps (collide id other channel) Anything
unfolding collide
collide-Keeps id other channel = then_ (client_at-Keeps id) (λ _ _.
    then_ (send_op-Keeps id HubOpcode.channel_busy channel) (λ _ _.
      then_ (has_client-Keeps other) (λ b _.
        either-Keeps b
          (λ _.
            then_ (send_op-Keeps other HubOpcode.channel_busy channel) (λ _ _. pure-Keeps true tt))
          (λ _. pure-Keeps true tt))))

take_offer-Keeps :
    (id : ℕ) (channel : List ℕ) (state : ChannelState)
    → ChannelFits state
    → Keeps (take_offer id channel state) Anything
unfolding take_offer
take_offer-Keeps id channel state fits =
    either-Keeps (state.have_offer && not (state.offer_from == id))
      (λ _.
        then_ (store_channel-Keeps channel _ fits)
          (λ _ _. collide-Keeps id state.offer_from channel))
      (λ _.
        either-Keeps
          (not (other_channel_peer state.channel_peers id == 0)
            || (state.have_recv_ready && not (state.recv_ready == id)))
          (λ _. then_ (store_channel-Keeps channel _ fits) (λ _ _.
            then_ (client_at-Keeps id) (λ _ _. send_op-Keeps id HubOpcode.channel_accept channel)))
          (λ _. then_ (store_channel-Keeps channel _ fits) (λ _ _. pure-Keeps true tt)))

pub handle_channel_offer-Keeps :
    (id : ℕ) (channel : List ℕ) → Keeps (handle_channel_offer id channel) Anything
unfolding handle_channel_offer
handle_channel_offer-Keeps id channel = then_ (open_channel-Keeps channel) (λ state fits.
    either-Keeps (listed id state.channel_peers) (λ _. take_offer-Keeps id channel state fits)
      (λ _. send_error-Keeps id _))

grant_offer-Keeps :
    (id : ℕ) (channel : List ℕ) (state : ChannelState)
    → ChannelFits state
    → Keeps (grant_offer id channel state) Anything
unfolding grant_offer
grant_offer-Keeps id channel state fits =
    either-Keeps (state.have_offer && not (state.offer_from == id))
      (λ _. then_ (store_channel-Keeps channel _ fits) (λ _ _.
        then_ (client_at-Keeps state.offer_from) (λ _ _.
          then_ (send_op-Keeps state.offer_from HubOpcode.channel_accept channel)
            (λ _ _. pure-Keeps tt tt))))
      (λ _. pure-Keeps tt tt)

drain_to_receiver-Keeps :
    (n id : ℕ) (channel : List ℕ) → Keeps (drain_to_receiver n id channel) Anything
unfolding drain_to_receiver
drain_to_receiver-Keeps zero id channel = pure-Keeps true tt
drain_to_receiver-Keeps (suc n) id channel = then_ (same_channel-Keeps channel) (λ state (p, q).
    backlog-Keeps state.pending (pure-Keeps true tt) (λ payload rest le.
      then_ (store_channel-Keeps channel _ (omega arith, q)) (λ _ _.
        then_ (deliver_payload-Keeps id channel AttachmentMode.channel_peer payload) (λ s _.
          either-Keeps s (λ _. drain_to_receiver-Keeps n id channel)
            (λ _. then_ (closing-Keeps id) (λ _ _. pure-Keeps false tt))))))

pub handle_channel_recv_ready-Keeps :
    (id : ℕ) (channel : List ℕ) → Keeps (handle_channel_recv_ready id channel) Anything
unfolding handle_channel_recv_ready receive_backlog become_ready
handle_channel_recv_ready-Keeps id channel = then_ (open_channel-Keeps channel) (λ state fits.
    either-Keeps (listed id state.channel_peers)
      (λ _. then_ (grant_offer-Keeps id channel state fits) (λ _ _.
        then_
          (then_ (has_client-Keeps id) (λ b _.
            either-Keeps b
              (λ _.
                then_ (same_channel-Keeps channel)
                  (λ s _. drain_to_receiver-Keeps (suc (length s.pending)) id channel))
              (λ _. pure-Keeps true tt)))
          (λ kept _.
            either-Keeps kept
              (λ _.
                then_ (same_channel-Keeps channel)
                  (λ s ok. then_ (store_channel-Keeps channel _ ok) (λ _ _. pure-Keeps true tt)))
              (λ _. pure-Keeps false tt))))
      (λ _. send_error-Keeps id _))

pub handle_channel_data_ack-Keeps :
    (id : ℕ) (channel : List ℕ) → Keeps (handle_channel_data_ack id channel) Anything
unfolding handle_channel_data_ack
handle_channel_data_ack-Keeps id channel =
    then_ (open_channel-Keeps channel)
      (λ state fits. then_ (store_channel-Keeps channel _ fits) (λ _ _. pure-Keeps true tt))
