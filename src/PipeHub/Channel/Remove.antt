-- ===== src/PipeHub/Channel/Remove.antt =====
-- include/pipe_hub_daemon.hpp: what `remove_client_from_channel` leaves.
use mathlib.Core.Bool.{◌&&◌, not}
use munchkinglang.Prelude.{ℕ, List, [], ◌∷◌, Bool, ◌≡◌, refl, arith, ◌==◌}
use munchkinglang.PipeHub.Channel.{
  ChannelState, listed, erase_id, clear_offer, clear_recv_ready, clear_data_ack,
  remove_client_from_channel,
}

-- The seven places in which a channel may name a client.
pub data Role : Type 0 where
  queue_reader broadcast_reader publisher peer offerer receiver acker : Role

abbrev pub has_role : Role → ℕ → ChannelState → Bool
has_role Role.queue_reader id c = listed id c.queue_readers
has_role Role.broadcast_reader id c = listed id c.broadcast_readers
has_role Role.publisher id c = listed id c.writers
has_role Role.peer id c = listed id c.channel_peers
has_role Role.offerer id c = c.have_offer && (c.offer_from == id)
has_role Role.receiver id c = c.have_recv_ready && (c.recv_ready == id)
has_role Role.acker id c = c.have_awaiting_data_ack && (c.awaiting_data_ack == id)

pub listed-erase_id :
    (id other : ℕ) (xs : List ℕ)
    → listed other (erase_id id xs) ≡ (listed other xs && not (other == id))
unfolding listed erase_id
listed-erase_id id other [] = refl
listed-erase_id id other (x ∷ xs) = grind (arith, listed-erase_id id other xs)

-- The removal of a client takes its roles, all seven, and every other client keeps its own.
pub remove_client_from_channel-has_role :
    (r : Role) (c : ChannelState) (id other : ℕ)
    → has_role r other (remove_client_from_channel c id) ≡ (has_role r other c && not (other == id))
unfolding remove_client_from_channel clear_offer clear_recv_ready clear_data_ack
remove_client_from_channel-has_role Role.queue_reader c id other =
    ground (arith, listed-erase_id id other c.queue_readers)
remove_client_from_channel-has_role Role.broadcast_reader c id other =
    ground (arith, listed-erase_id id other c.broadcast_readers)
remove_client_from_channel-has_role Role.publisher c id other =
    ground (arith, listed-erase_id id other c.writers)
remove_client_from_channel-has_role Role.peer c id other =
    ground (arith, listed-erase_id id other c.channel_peers)
remove_client_from_channel-has_role Role.offerer c id other = ground arith
remove_client_from_channel-has_role Role.receiver c id other = ground arith
remove_client_from_channel-has_role Role.acker c id other = ground arith
