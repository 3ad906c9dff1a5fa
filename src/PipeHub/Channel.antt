-- ===== src/PipeHub/Channel.antt =====
-- include/pipe_hub_daemon.hpp: the state of one channel, and a client's removal from it.
pub mod Remove
use mathlib.Core.Bool.{◌||◌, ◌&&◌, not}
use munchkinglang.Prelude.{
  ℕ, zero, suc, List, [], ◌∷◌, ◌++◌, Bool, true, false, ◌==◌, if◌then◌else◌,
}

pub record ChannelState : Type 0 where
  pub queue_readers : List ℕ
  pub broadcast_readers : List ℕ
  pub writers : List ℕ
  pub channel_peers : List ℕ
  pub pending : List (List ℕ)
  pub queue_cursor : ℕ
  pub offer_from : ℕ
  pub have_offer : Bool
  pub recv_ready : ℕ
  pub have_recv_ready : Bool
  pub awaiting_data_ack : ℕ
  pub have_awaiting_data_ack : Bool

abbrev pub max_pending : ℕ
max_pending = 4096

-- `channel_state{}`
abbrev pub empty_channel : ChannelState
empty_channel = record {
  queue_readers = [];
  broadcast_readers = [];
  writers = [];
  channel_peers = [];
  pending = [];
  queue_cursor = 0;
  offer_from = 0;
  have_offer = false;
  recv_ready = 0;
  have_recv_ready = false;
  awaiting_data_ack = 0;
  have_awaiting_data_ack = false;
}

-- `std::find` for a client.
unfoldable pub listed : ℕ → List ℕ → Bool
listed id [] = false
listed id (x ∷ xs) = x == id || listed id xs

abbrev pub is_empty {ℓ} : {A : Type ℓ} → List A → Bool
is_empty [] = true
is_empty (_ ∷ _) = false

unfoldable pub erase_id : ℕ → List ℕ → List ℕ
erase_id id [] = []
erase_id id (x ∷ xs) = if x == id then erase_id id xs else (x ∷ erase_id id xs)

unfoldable pub clear_offer : ℕ → ChannelState → ChannelState
clear_offer id c =
    if c.have_offer && (c.offer_from == id)
    then record c { have_offer = false; offer_from = 0 }
    else c

unfoldable pub clear_recv_ready : ℕ → ChannelState → ChannelState
clear_recv_ready id c =
    if c.have_recv_ready && (c.recv_ready == id)
    then record c { have_recv_ready = false; recv_ready = 0 }
    else c

unfoldable pub clear_data_ack : ℕ → ChannelState → ChannelState
clear_data_ack id c =
    if c.have_awaiting_data_ack && (c.awaiting_data_ack == id)
    then record c { have_awaiting_data_ack = false; awaiting_data_ack = 0 }
    else c

unfoldable pub remove_client_from_channel : ChannelState → ℕ → ChannelState
remove_client_from_channel c id = clear_data_ack id (
    clear_recv_ready id (
      clear_offer id (record c {
        queue_readers = erase_id id c.queue_readers;
        broadcast_readers = erase_id id c.broadcast_readers;
        writers = erase_id id c.writers;
        channel_peers = erase_id id c.channel_peers;
      })))

unfoldable pub channel_has_reader : ChannelState → Bool
channel_has_reader c = not (is_empty c.queue_readers) || not (is_empty c.broadcast_readers)

-- The condition of `maybe_erase_channel`.
unfoldable pub is_unused : ChannelState → Bool
is_unused c =
    not (channel_has_reader c)
    && is_empty c.pending
    && is_empty c.writers
    && is_empty c.channel_peers

-- `other_channel_peer` over the peers that are left.
unfoldable pub other_channel_peer : List ℕ → ℕ → ℕ
other_channel_peer [] id = 0
other_channel_peer (candidate ∷ rest) id =
    if not (candidate == id) then candidate else other_channel_peer rest id
