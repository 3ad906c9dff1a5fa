-- ===== src/PipeHub/Daemon.antt =====
-- include/pipe_hub_daemon.hpp: the daemon's state, its outcomes and `close_client`.
pub mod Deliver
pub mod Attach
pub mod Handshake
pub mod Input
pub mod Close
pub mod Bounds
use mathlib.Core.Bool.{◌||◌, ◌&&◌, not}
use munchkinglang.Prelude.{
  ℕ, zero, suc, List, [], ◌∷◌, ◌++◌, Bool, true, false, Option, none, some, ◌==◌, if◌then◌else◌,
}
use munchkinglang.Mir.Runtime.{same_bytes}
use munchkinglang.PipeHub.Protocol.{
  AttachmentMode, ClientKind, Buffer, mode_byte, encode_ack, encode_error, encode_deliver,
}
use munchkinglang.PipeHub.Channel.{
  ChannelState, empty_channel, remove_client_from_channel, is_unused,
}

-- `client_state`, less its connection: `Event` records what is done to that.
pub record ClientState : Type 0 where
  pub pid : ℕ
  pub kind : ClientKind
  pub input : List ℕ
  pub frame_size : ℕ
  pub have_header : Bool
  pub attachments : List (List ℕ × AttachmentMode)

pub data Event : Type 0 where
  wrote : ℕ → List ℕ → Event
  closed : ℕ → Event

-- `accepts id n`: the transport takes the write to client `id` after `n` events.
pub record Daemon : Type 0 where
  pub accepts : ℕ → ℕ → Bool
  pub events : ℕ
  pub log : List Event
  pub clients : ℕ → Option ClientState
  pub channels : List ℕ → Option ChannelState

-- `thrown`: `clients.at` of no client. `undefined`: a dangling reference or iterator is used.
pub data Outcome (A : Type 0) : Type 0 where
  done : A → Daemon → Outcome A
  thrown undefined : Outcome A

abbrev pub Step : Type 0 → Type 0
Step A = Daemon → Outcome A

abbrev pub after : {A B : Type 0} → Outcome A → (A → Step B) → Outcome B
after (done a d) f = f a d
after thrown f = thrown
after undefined f = undefined

infixl 5 ◌>>=◌
abbrev pub ◌>>=◌ : {A B : Type 0} → Step A → (A → Step B) → Step B
◌>>=◌ m f d = after (m d) f

abbrev pub pure : {A : Type 0} → A → Step A
pure a d = done a d

abbrev pub put_client : ℕ → Option ClientState → Daemon → Daemon
put_client id c d = record d { clients = λ i. if i == id then c else d.clients i }

abbrev pub put_channel : List ℕ → Option ChannelState → Daemon → Daemon
put_channel name c d = record d { channels = λ n. if same_bytes n name then c else d.channels n }

abbrev pub note : Event → Daemon → Daemon
note event d = record d { events = suc d.events; log = event ∷ d.log }

-- `channels[channel]`, which makes a channel where there is none.
unfoldable pub open_channel : List ℕ → Step ChannelState
open_channel name d = elim (d.channels name) [
  | none ↦ done empty_channel (put_channel name (some empty_channel) d)
  | some c ↦ done c d
]

-- The use of a reference to a channel that was taken before.
unfoldable pub same_channel : List ℕ → Step ChannelState
same_channel name d = elim (d.channels name) [ none ↦ undefined | some c ↦ done c d ]

unfoldable pub store_channel : List ℕ → ChannelState → Step Unit
store_channel name c d = done tt (put_channel name (some c) d)

-- `clients.at(id)`
unfoldable pub client_at : ℕ → Step ClientState
client_at id d = elim (d.clients id) [ none ↦ thrown | some c ↦ done c d ]

-- The use of a reference to a client that was taken before.
unfoldable pub same_client : ℕ → Step ClientState
same_client id d = elim (d.clients id) [ none ↦ undefined | some c ↦ done c d ]

unfoldable pub store_client : ℕ → ClientState → Step Unit
store_client id c d = done tt (put_client id (some c) d)

-- `clients.contains(id)`
unfoldable pub has_client : ℕ → Step Bool
has_client id d = elim (d.clients id) [ none ↦ done false d | some _ ↦ done true d ]

unfoldable pub deliver_to_client : ℕ → List ℕ → Step Bool
deliver_to_client id frame d = done (d.accepts id d.events) (note (Event.wrote id frame) d)

unfoldable pub maybe_erase_channel : List ℕ → Daemon → Daemon
maybe_erase_channel name d = elim (d.channels name) [
  | none ↦ d
  | some c ↦ if is_unused c then put_channel name none d else d
]

-- One round of the loop of `close_client`, and the end of `unregister_attachment`.
unfoldable pub detach_from : ℕ → List ℕ → Daemon → Daemon
detach_from id name d = elim (d.channels name) [
  | none ↦ d
  | some c ↦ maybe_erase_channel name (put_channel name (some (remove_client_from_channel c id)) d)
]

unfoldable pub detach_all : ℕ → List (List ℕ × AttachmentMode) → Daemon → Daemon
detach_all id [] d = d
detach_all id ((name, mode) ∷ rest) d = detach_all id rest (detach_from id name d)

unfoldable pub close_client : ℕ → Daemon → Daemon
close_client id d = elim (d.clients id) [
  | none ↦ d
  | some c ↦ put_client id none (note (Event.closed id) (detach_all id c.attachments d))
]

unfoldable pub closing : ℕ → Step Unit
closing id d = done tt (close_client id d)

-- What `send_ack` and `send_error` do with the frame they encode.
unfoldable pub send_frame : ℕ → List ℕ → Step Bool
send_frame id frame = do
  found ← has_client id
  elim found [
    | false ↦ pure false
    | true ↦ do
      sent ← deliver_to_client id frame
      elim sent [ true ↦ pure true | false ↦ do _ ← closing id; pure false ]
  ]

unfoldable pub send_ack : ℕ → Step Bool
send_ack id = send_frame id encode_ack.bytes

unfoldable pub send_error : ℕ → List ℕ → Step Bool
send_error id text = send_frame id (encode_error text).bytes

unfoldable pub deliver_payload : ℕ → List ℕ → AttachmentMode → List ℕ → Step Bool
deliver_payload id channel mode payload =
    deliver_to_client id (encode_deliver channel mode payload).bytes
