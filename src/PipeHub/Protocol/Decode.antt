-- ===== src/PipeHub/Protocol/Decode.antt =====
-- include/pipe_hub_protocol.hpp: the reader and `decode_message`.
use mathlib.Core.Bool.{◌||◌, not}
use munchkinglang.Prelude.{
  ℕ, zero, suc, ◌+◌, ◌-◌, ◌*◌, List, [], ◌∷◌, Bool, false, some, none, ltb, ◌==◌, if◌then◌else◌,
  get_elem?,
}
use munchkinglang.PipeHub.Protocol.{
  HubOpcode, AttachmentMode, ClientKind, unknown_op, unknown_mode, unknown_kind,
}

-- `memory` gives the byte at each offset from the start of the message, behind its end too:
-- `read` goes on past the end after it has set the flag. `cursor` tells how far it has read.
pub record Reader : Type 0 where
  pub memory : ℕ → ℕ
  pub size : ℕ
  pub cursor : ℕ
  pub failed : Bool

abbrev pub Read : Type 0 → Type 0
Read A = Reader → A × Reader

infixl 5 ◌>>=◌
abbrev pub ◌>>=◌ : {A B : Type 0} → Read A → (A → Read B) → Read B
◌>>=◌ m f r = let (a, r') = m r in f a r'

abbrev pub pure : {A : Type 0} → A → Read A
pure a r = (a, r)

abbrev pub bytes_from : (ℕ → ℕ) → ℕ → ℕ → List ℕ
bytes_from memory start zero = []
bytes_from memory start (suc n) = memory start ∷ bytes_from memory (suc start) n

unfoldable pub read : ℕ → Read (List ℕ)
read count r = (
  bytes_from r.memory r.cursor count,
  record r { cursor = r.cursor + count; failed = r.failed || ltb r.size (r.cursor + count) },
)

-- The bytes of a number, lowest first: disjoint bit ranges, so `|` is a sum.
abbrev pub little_endian : List ℕ → ℕ
little_endian [] = 0
little_endian (b ∷ bs) = b + 256 * little_endian bs

abbrev pub first_byte : List ℕ → ℕ
first_byte [] = 0
first_byte (b ∷ _) = b

unfoldable pub u8 : Read ℕ
unfolding read
u8 = read 1 >>= λ bytes. pure (first_byte bytes)

unfoldable pub u32 : Read ℕ
unfolding read
u32 = read 4 >>= λ bytes. pure (little_endian bytes)

unfoldable pub u64 : Read ℕ
unfolding read
u64 = read 8 >>= λ bytes. pure (little_endian bytes)

-- `string` and `bytes`, which read alike.
unfoldable pub read_bytes : Read (List ℕ)
read_bytes = u32 >>= read

-- `!remaining().empty()`
unfoldable pub has_more : Read Bool
has_more r = (not (r.cursor == r.size), r)

unfoldable pub opcode_of : ℕ → HubOpcode
opcode_of n =
    elim (get_elem?
      (HubOpcode.hello ∷ HubOpcode.bye ∷ HubOpcode.attach ∷ HubOpcode.detach ∷ HubOpcode.publish
        ∷ HubOpcode.deliver ∷ HubOpcode.ack ∷ HubOpcode.error ∷ HubOpcode.channel_offer
        ∷ HubOpcode.channel_accept ∷ HubOpcode.channel_busy ∷ HubOpcode.channel_recv_ready
        ∷ HubOpcode.channel_data_ack ∷ [])
      (n - 1)) [ none ↦ unknown_op n | some op ↦ if n == 0 then unknown_op n else op ]

unfoldable pub mode_of : ℕ → AttachmentMode
mode_of n =
    elim (get_elem?
      (AttachmentMode.writer ∷ AttachmentMode.queue_in ∷ AttachmentMode.broadcast_in
        ∷ AttachmentMode.channel_peer ∷ [])
      n) [ none ↦ unknown_mode n | some mode ↦ mode ]

unfoldable pub kind_of : ℕ → ClientKind
kind_of n =
    elim (get_elem? (ClientKind.unknown ∷ ClientKind.vm ∷ ClientKind.native ∷ ClientKind.tool ∷ [])
      n) [ none ↦ unknown_kind n | some kind ↦ kind ]

pub record Message : Type 0 where
  pub kind : HubOpcode
  pub pid : ℕ
  pub client : ClientKind
  pub channel : List ℕ
  pub mode : AttachmentMode
  pub payload : List ℕ
  pub text : List ℕ

-- `message decoded;` once its kind is set.
abbrev pub blank : HubOpcode → Message
blank kind = record {
  kind = kind;
  pid = 0;
  client = ClientKind.unknown;
  channel = [];
  mode = AttachmentMode.writer;
  payload = [];
  text = [];
}

unfoldable pub read_client : Message → Bool → Read Message
read_client m more = if more then (u8 >>= λ n. pure (record m { client = kind_of n })) else pure m

unfoldable pub read_channel : HubOpcode → Read Message
read_channel op = do channel ← read_bytes; pure (record (blank op) { channel = channel })

-- The `switch` on the kind.
unfoldable pub decode_fields : HubOpcode → Read Message
decode_fields HubOpcode.hello = do
  pid ← u64
  more ← has_more
  read_client (record (blank HubOpcode.hello) { pid = pid }) more
decode_fields HubOpcode.attach = do
  channel ← read_bytes
  mode ← u8
  pure (record (blank HubOpcode.attach) { channel = channel; mode = mode_of mode })
decode_fields HubOpcode.detach = do
  channel ← read_bytes
  mode ← u8
  pure (record (blank HubOpcode.detach) { channel = channel; mode = mode_of mode })
decode_fields HubOpcode.publish = do
  channel ← read_bytes
  payload ← read_bytes
  pure (record (blank HubOpcode.publish) { channel = channel; payload = payload })
decode_fields HubOpcode.deliver = do
  channel ← read_bytes
  mode ← u8
  payload ← read_bytes
  pure (record (blank HubOpcode.deliver) {
    channel = channel;
    mode = mode_of mode;
    payload = payload;
  })
decode_fields HubOpcode.error = do
  text ← read_bytes
  pure (record (blank HubOpcode.error) { text = text })
decode_fields HubOpcode.channel_offer = read_channel HubOpcode.channel_offer
decode_fields HubOpcode.channel_accept = read_channel HubOpcode.channel_accept
decode_fields HubOpcode.channel_busy = read_channel HubOpcode.channel_busy
decode_fields HubOpcode.channel_recv_ready = read_channel HubOpcode.channel_recv_ready
decode_fields HubOpcode.channel_data_ack = read_channel HubOpcode.channel_data_ack
decode_fields op = pure (blank op)

unfoldable pub decode_message : (ℕ → ℕ) → ℕ → Message × Reader
decode_message memory size =
    (u8 >>= λ kind. decode_fields (opcode_of kind))
      (record { memory = memory; size = size; cursor = 0; failed = false })
