-- ===== src/PipeHub/Protocol.antt =====
-- include/pipe_hub_protocol.hpp: the encoders. Bytes are numbers below 256.
pub mod Decode
pub mod Bytes
pub mod RoundTrip
use mathlib.Core.Bool.{◌||◌}
use munchkinglang.Prelude.{
  ℕ, zero, suc, ◌+◌, ◌-◌, ◌/◌, ◌%◌, ◌^◌, List, [], ◌∷◌, ◌++◌, Bool, true, false, ltb, length,
}

-- `unknown_op` and its like stand for a byte that names no member of the enum.
pub data HubOpcode : Type 0 where
  hello bye attach detach publish deliver ack error : HubOpcode
  channel_offer channel_accept channel_busy channel_recv_ready channel_data_ack : HubOpcode
  unknown_op : ℕ → HubOpcode

pub data AttachmentMode : Type 0 where
  writer queue_in broadcast_in channel_peer : AttachmentMode
  unknown_mode : ℕ → AttachmentMode

pub data ClientKind : Type 0 where
  unknown vm native tool : ClientKind
  unknown_kind : ℕ → ClientKind

abbrev pub opcode_byte : HubOpcode → ℕ
opcode_byte hello = 1
opcode_byte bye = 2
opcode_byte attach = 3
opcode_byte detach = 4
opcode_byte publish = 5
opcode_byte deliver = 6
opcode_byte ack = 7
opcode_byte error = 8
opcode_byte channel_offer = 9
opcode_byte channel_accept = 10
opcode_byte channel_busy = 11
opcode_byte channel_recv_ready = 12
opcode_byte channel_data_ack = 13
opcode_byte (unknown_op n) = n

abbrev pub mode_byte : AttachmentMode → ℕ
mode_byte writer = 0
mode_byte queue_in = 1
mode_byte broadcast_in = 2
mode_byte channel_peer = 3
mode_byte (unknown_mode n) = n

abbrev pub kind_byte : ClientKind → ℕ
kind_byte unknown = 0
kind_byte vm = 1
kind_byte native = 2
kind_byte tool = 3
kind_byte (unknown_kind n) = n

-- A byte buffer under construction, with the thread's `protocol_error_flag`.
pub record Buffer : Type 0 where
  pub bytes : List ℕ
  pub failed : Bool

abbrev pub empty_buffer : Buffer
empty_buffer = record { bytes = []; failed = false }

unfoldable pub append_u8 : ℕ → Buffer → Buffer
append_u8 byte b = record b { bytes = b.bytes ++ (byte % 256 ∷ []) }

unfoldable pub append_u32 : ℕ → Buffer → Buffer
unfolding append_u8
append_u32 word b =
    append_u8 (word / 2 ^ 24)
      (append_u8 (word / 2 ^ 16) (append_u8 (word / 2 ^ 8) (append_u8 word b)))

-- The loop of `append_u64` over the bytes that are left.
unfoldable pub append_bytes_of : ℕ → ℕ → Buffer → Buffer
unfolding append_u8
append_bytes_of zero word b = b
append_bytes_of (suc n) word b = append_bytes_of n (word / 256) (append_u8 word b)

unfoldable pub append_u64 : ℕ → Buffer → Buffer
unfolding append_bytes_of
append_u64 = append_bytes_of 8

unfoldable pub append_each : List ℕ → Buffer → Buffer
unfolding append_u8
append_each [] b = b
append_each (byte ∷ rest) b = append_each rest (append_u8 byte b)

abbrev pub too_long : List ℕ → Bool
too_long text = ltb (2 ^ 32 - 1) (length text)

-- A text that is too long sets the flag, and is written all the same.
unfoldable pub append_string : List ℕ → Buffer → Buffer
append_string text b =
    append_each text
      (append_u32 (length text % 2 ^ 32) (record b { failed = b.failed || too_long text }))

unfoldable pub append_bytes : List ℕ → Buffer → Buffer
append_bytes bytes b =
    let sized =
      append_u32 (length bytes % 2 ^ 32) (record b { failed = b.failed || too_long bytes }) in
    record sized { bytes = sized.bytes ++ bytes }

unfoldable pub encode_frame : Buffer → Buffer
encode_frame body =
    let header =
      append_u32 (length body.bytes % 2 ^ 32)
        (record { bytes = []; failed = body.failed || too_long body.bytes }) in
    record header { bytes = header.bytes ++ body.bytes }

unfoldable pub encode_hello : ℕ → ClientKind → Buffer
encode_hello pid kind =
    encode_frame
      (append_u8 (kind_byte kind) (append_u64 pid (append_u8 (opcode_byte hello) empty_buffer)))

unfoldable pub encode_bye : Buffer
encode_bye = encode_frame (append_u8 (opcode_byte bye) empty_buffer)

unfoldable pub encode_attach : List ℕ → AttachmentMode → Buffer
encode_attach channel mode = encode_frame (
    append_u8 (mode_byte mode)
      (append_string channel (append_u8 (opcode_byte attach) empty_buffer)))

unfoldable pub encode_detach : List ℕ → AttachmentMode → Buffer
encode_detach channel mode = encode_frame (
    append_u8 (mode_byte mode)
      (append_string channel (append_u8 (opcode_byte detach) empty_buffer)))

unfoldable pub encode_publish : List ℕ → List ℕ → Buffer
encode_publish channel payload =
    encode_frame
      (append_bytes payload (append_string channel (append_u8 (opcode_byte publish) empty_buffer)))

unfoldable pub encode_deliver : List ℕ → AttachmentMode → List ℕ → Buffer
encode_deliver channel mode payload = encode_frame (
    append_bytes payload (
      append_u8 (mode_byte mode)
        (append_string channel (append_u8 (opcode_byte deliver) empty_buffer))))

unfoldable pub encode_ack : Buffer
encode_ack = encode_frame (append_u8 (opcode_byte ack) empty_buffer)

unfoldable pub encode_error : List ℕ → Buffer
encode_error message =
    encode_frame (append_string message (append_u8 (opcode_byte error) empty_buffer))

unfoldable pub encode_channel_op : HubOpcode → List ℕ → Buffer
encode_channel_op kind channel =
    encode_frame (append_string channel (append_u8 (opcode_byte kind) empty_buffer))
