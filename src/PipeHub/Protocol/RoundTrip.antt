-- ===== src/PipeHub/Protocol/RoundTrip.antt =====
-- include/pipe_hub_protocol.hpp: `decode_message` reads back what the encoders write.
use mathlib.Core.List.{append_assoc}
use mathlib.Core.Path.{subst}
use munchkinglang.Prelude.{
  ℕ, ◌+◌, ◌^◌, ◌<◌, List, [], ◌∷◌, ◌++◌, false, ◌≡◌, refl, sym, ap, ◌∙◌, arith, length,
  length-append, ◌==◌,
}
use munchkinglang.PipeHub.Protocol.{
  HubOpcode, AttachmentMode, ClientKind, mode_byte, kind_byte, opcode_byte, Buffer, empty_buffer,
  encode_frame, append_u8, encode_hello, encode_bye, encode_attach, encode_detach, encode_publish,
  encode_deliver, encode_ack, encode_error, encode_channel_op, append_string,
}
use munchkinglang.PipeHub.Protocol.Decode.{
  ◌>>=◌, pure, has_more, Message, blank, decode_fields, decode_message, opcode_of, mode_of, kind_of,
  u8, u64, read_bytes, read_client, read_channel,
}
use munchkinglang.PipeHub.Protocol.Bytes.{
  AllBytes, bytes_of, sized, grown, At, reader, Reads, >>=-Reads, pure-Reads, map-Reads, u8-Reads,
  u64-Reads, read_bytes-Reads, append_u8-grown, append_u64-grown, append_string-grown,
  append_bytes-grown, encode_frame-grown,
}

-- A call of one of the encoders.
pub data Sent : Type 0 where
  hello : ℕ → ClientKind → Sent
  bye : Sent
  attach : List ℕ → AttachmentMode → Sent
  detach : List ℕ → AttachmentMode → Sent
  publish : List ℕ → List ℕ → Sent
  deliver : List ℕ → AttachmentMode → List ℕ → Sent
  ack : Sent
  error : List ℕ → Sent
  channel_offer channel_accept channel_busy channel_recv_ready channel_data_ack : List ℕ → Sent

abbrev pub encode : Sent → Buffer
encode (hello pid kind) = encode_hello pid kind
encode bye = encode_bye
encode (attach channel mode) = encode_attach channel mode
encode (detach channel mode) = encode_detach channel mode
encode (publish channel payload) = encode_publish channel payload
encode (deliver channel mode payload) = encode_deliver channel mode payload
encode ack = encode_ack
encode (error text) = encode_error text
encode (channel_offer channel) = encode_channel_op HubOpcode.channel_offer channel
encode (channel_accept channel) = encode_channel_op HubOpcode.channel_accept channel
encode (channel_busy channel) = encode_channel_op HubOpcode.channel_busy channel
encode (channel_recv_ready channel) = encode_channel_op HubOpcode.channel_recv_ready channel
encode (channel_data_ack channel) = encode_channel_op HubOpcode.channel_data_ack channel

-- The message that it stands for.
abbrev pub meant : Sent → Message
meant (hello pid kind) = record (blank HubOpcode.hello) { pid = pid; client = kind }
meant bye = blank HubOpcode.bye
meant (attach channel mode) = record (blank HubOpcode.attach) { channel = channel; mode = mode }
meant (detach channel mode) = record (blank HubOpcode.detach) { channel = channel; mode = mode }
meant (publish channel payload) = record (blank HubOpcode.publish) {
  channel = channel;
  payload = payload;
}
meant (deliver channel mode payload) = record (blank HubOpcode.deliver) {
  channel = channel;
  mode = mode;
  payload = payload;
}
meant ack = blank HubOpcode.ack
meant (error text) = record (blank HubOpcode.error) { text = text }
meant (channel_offer channel) = record (blank HubOpcode.channel_offer) { channel = channel }
meant (channel_accept channel) = record (blank HubOpcode.channel_accept) { channel = channel }
meant (channel_busy channel) = record (blank HubOpcode.channel_busy) { channel = channel }
meant (channel_recv_ready channel) = record (blank HubOpcode.channel_recv_ready) {
  channel = channel;
}
meant (channel_data_ack channel) = record (blank HubOpcode.channel_data_ack) { channel = channel }

-- The bytes behind the opcode's byte in the frame.
abbrev pub fields : Sent → List ℕ
fields (hello pid kind) = bytes_of 8 pid ++ kind_byte kind ∷ []
fields (attach channel mode) = sized channel ++ mode_byte mode ∷ []
fields (detach channel mode) = sized channel ++ mode_byte mode ∷ []
fields (publish channel payload) = sized channel ++ sized payload
fields (deliver channel mode payload) = sized channel ++ (mode_byte mode ∷ [] ++ sized payload)
fields (error text) = sized text
fields (channel_offer channel) = sized channel
fields (channel_accept channel) = sized channel
fields (channel_busy channel) = sized channel
fields (channel_recv_ready channel) = sized channel
fields (channel_data_ack channel) = sized channel
fields bye = []
fields ack = []

abbrev pub body : Sent → List ℕ
body s = opcode_byte (meant s).kind ∷ fields s

-- A mode or client kind that the enum names.
abbrev pub NamedMode : AttachmentMode → Type 0
NamedMode (AttachmentMode.unknown_mode n) = ⊥
NamedMode _ = Unit

abbrev pub NamedKind : ClientKind → Type 0
NamedKind (ClientKind.unknown_kind n) = ⊥
NamedKind _ = Unit

abbrev pub IsText : List ℕ → Type 0
IsText text = AllBytes text × (length text < 2 ^ 31)

-- Texts and payloads hold bytes and are shorter than 2 ^ 31, half of what a frame can hold; a pid has
-- 64 bits.
abbrev pub IsSendable : Sent → Type 0
IsSendable (hello pid kind) = (pid < 2 ^ 64) × NamedKind kind
IsSendable bye = Unit
IsSendable (attach channel mode) = IsText channel × NamedMode mode
IsSendable (detach channel mode) = IsText channel × NamedMode mode
IsSendable (publish channel payload) =
    IsText channel × IsText payload × (length channel + length payload < 2 ^ 31)
IsSendable (deliver channel mode payload) =
    IsText channel × NamedMode mode × IsText payload × (length channel + length payload < 2 ^ 31)
IsSendable ack = Unit
IsSendable (error text) = IsText text
IsSendable (channel_offer channel) = IsText channel
IsSendable (channel_accept channel) = IsText channel
IsSendable (channel_busy channel) = IsText channel
IsSendable (channel_recv_ready channel) = IsText channel
IsSendable (channel_data_ack channel) = IsText channel

mode_of-byte : (mode : AttachmentMode) → NamedMode mode → mode_of (mode_byte mode) ≡ mode
unfolding mode_of
mode_of-byte AttachmentMode.writer h = refl
mode_of-byte AttachmentMode.queue_in h = refl
mode_of-byte AttachmentMode.broadcast_in h = refl
mode_of-byte AttachmentMode.channel_peer h = refl
mode_of-byte (AttachmentMode.unknown_mode n) h = absurd h

kind_of-byte : (kind : ClientKind) → NamedKind kind → kind_of (kind_byte kind) ≡ kind
unfolding kind_of
kind_of-byte ClientKind.unknown h = refl
kind_of-byte ClientKind.vm h = refl
kind_of-byte ClientKind.native h = refl
kind_of-byte ClientKind.tool h = refl
kind_of-byte (ClientKind.unknown_kind n) h = absurd h

channel-Reads :
    (op : HubOpcode) (channel : List ℕ)
    → IsText channel
    → Reads (read_channel op) (sized channel) (record (blank op) { channel = channel })
unfolding read_channel
channel-Reads op channel (b, n) =
    map-Reads read_bytes (λ c. record (blank op) { channel = c }) (sized channel) channel
      (read_bytes-Reads channel (omega arith))

mode-Reads :
    (mode : AttachmentMode) (g : AttachmentMode → Message)
    → NamedMode mode
    → Reads (u8 >>= λ n. pure (g (mode_of n))) (mode_byte mode ∷ []) (g mode)
mode-Reads mode g h =
    subst (λ m. Reads (u8 >>= λ n. pure (g (mode_of n))) (mode_byte mode ∷ []) (g m))
      (mode_of-byte mode h)
      (map-Reads u8 (λ n. g (mode_of n)) (mode_byte mode ∷ []) (mode_byte mode)
        (u8-Reads (mode_byte mode)))

-- The rest of a Hello: the byte of the client's kind is there, so it is read.
client-Reads :
    (m : Message) (kind : ClientKind)
    → NamedKind kind
    → Reads (has_more >>= read_client m) (kind_byte kind ∷ []) (record m { client = kind })
unfolding has_more read_client
client-Reads m kind h memory size start at fits =
    let there : (start == size) ≡ false = ground arith in
    rw there (
      map-Reads u8 (λ n. record m { client = kind_of n }) (kind_byte kind ∷ []) (kind_byte kind)
        (u8-Reads (kind_byte kind)) memory size start at fits
      ∙ ap (λ k. (record m { client = k }, reader memory size (start + 1))) (kind_of-byte kind h))

-- The fields behind the opcode's byte, for each encoder.
fields-Reads : (s : Sent) → IsSendable s → Reads (decode_fields (meant s).kind) (fields s) (meant s)
unfolding decode_fields
fields-Reads (hello pid kind) (p, k) =
    >>=-Reads u64 (λ n. has_more >>= read_client (record (blank HubOpcode.hello) { pid = n }))
      (bytes_of 8 pid) (kind_byte kind ∷ []) pid (meant (hello pid kind)) (u64-Reads pid p)
      (client-Reads (record (blank HubOpcode.hello) { pid = pid }) kind k)
fields-Reads bye h = pure-Reads (blank HubOpcode.bye)
fields-Reads (attach channel mode) ((_, n), m) =
    let g = λ (c : List ℕ) (k : AttachmentMode). record (blank HubOpcode.attach) {
      channel = c;
      mode = k;
    } in
    >>=-Reads read_bytes (λ c. u8 >>= λ b. pure (g c (mode_of b))) (sized channel)
      (mode_byte mode ∷ []) channel (g channel mode) (read_bytes-Reads channel (omega arith))
      (mode-Reads mode (g channel) m)
fields-Reads (detach channel mode) ((_, n), m) =
    let g = λ (c : List ℕ) (k : AttachmentMode). record (blank HubOpcode.detach) {
      channel = c;
      mode = k;
    } in
    >>=-Reads read_bytes (λ c. u8 >>= λ b. pure (g c (mode_of b))) (sized channel)
      (mode_byte mode ∷ []) channel (g channel mode) (read_bytes-Reads channel (omega arith))
      (mode-Reads mode (g channel) m)
fields-Reads (publish channel payload) ((_, n), (_, k), _) =
    let g = λ (c p : List ℕ). record (blank HubOpcode.publish) { channel = c; payload = p } in
    >>=-Reads read_bytes (λ c. read_bytes >>= λ p. pure (g c p)) (sized channel) (sized payload)
      channel (g channel payload) (read_bytes-Reads channel (omega arith))
      (map-Reads read_bytes (g channel) (sized payload) payload
        (read_bytes-Reads payload (omega arith)))
fields-Reads (deliver channel mode payload) ((_, n), m, (_, k), _) =
    let g = λ (c : List ℕ) (b : AttachmentMode) (p : List ℕ). record (blank HubOpcode.deliver) {
      channel = c;
      mode = b;
      payload = p;
    } in
    let rest = λ (c : List ℕ) (b : AttachmentMode). read_bytes >>= λ p. pure (g c b p) in
    >>=-Reads read_bytes (λ c. u8 >>= λ b. rest c (mode_of b)) (sized channel)
      (mode_byte mode ∷ [] ++ sized payload) channel (g channel mode payload)
      (read_bytes-Reads channel (omega arith))
      (>>=-Reads u8 (λ b. rest channel (mode_of b)) (mode_byte mode ∷ []) (sized payload)
        (mode_byte mode) (g channel mode payload) (u8-Reads (mode_byte mode))
        (subst (λ b. Reads (rest channel b) (sized payload) (g channel mode payload))
          (sym (mode_of-byte mode m))
          (map-Reads read_bytes (g channel mode) (sized payload) payload
            (read_bytes-Reads payload (omega arith)))))
fields-Reads ack h = pure-Reads (blank HubOpcode.ack)
fields-Reads (error text) (_, n) =
    map-Reads read_bytes (λ t. record (blank HubOpcode.error) { text = t }) (sized text) text
      (read_bytes-Reads text (omega arith))
fields-Reads (channel_offer channel) h = channel-Reads HubOpcode.channel_offer channel h
fields-Reads (channel_accept channel) h = channel-Reads HubOpcode.channel_accept channel h
fields-Reads (channel_busy channel) h = channel-Reads HubOpcode.channel_busy channel h
fields-Reads (channel_recv_ready channel) h = channel-Reads HubOpcode.channel_recv_ready channel h
fields-Reads (channel_data_ack channel) h = channel-Reads HubOpcode.channel_data_ack channel h

opcode_of-byte : (s : Sent) → opcode_of (opcode_byte (meant s).kind) ≡ (meant s).kind
unfolding opcode_of
opcode_of-byte (hello pid kind) = refl
opcode_of-byte s = refl

kind_byte-lt : (kind : ClientKind) → NamedKind kind → kind_byte kind < 256
kind_byte-lt (ClientKind.unknown_kind n) h = absurd h
kind_byte-lt kind h = omega arith

mode_byte-lt : (mode : AttachmentMode) → NamedMode mode → mode_byte mode < 256
mode_byte-lt (AttachmentMode.unknown_mode n) h = absurd h
mode_byte-lt mode h = omega arith

-- A buffer that holds a body makes a frame of it.
framed :
    (bytes : List ℕ)
    → length bytes < 2 ^ 32
    → (b : Buffer) → b ≡ record { bytes = bytes; failed = false }
    → encode_frame b ≡ record { bytes = sized bytes; failed = false }
framed bytes small b e = rw e (encode_frame-grown (record { bytes = bytes; failed = false }) small)

-- The opcode's byte, then a text.
text-frame :
    (op : ℕ) (c : List ℕ)
    → op < 256
    → IsText c
    → encode_frame (append_string c (append_u8 op empty_buffer))
      ≡ record { bytes = sized (op ∷ sized c); failed = false }
text-frame op c o (b, n) = framed (op ∷ sized c) (omega arith) _ (
    rw (append_u8-grown op empty_buffer o)
      (append_string-grown c (grown empty_buffer (op ∷ [])) b (omega arith)))

-- The same, then one byte.
mode-frame :
    (op : ℕ) (c : List ℕ) (mode : ℕ)
    → op < 256
    → IsText c
    → mode < 256
    → encode_frame (append_u8 mode (append_string c (append_u8 op empty_buffer)))
      ≡ record { bytes = sized (op ∷ (sized c ++ mode ∷ [])); failed = false }
mode-frame op c mode o (b, n) m =
    framed (op ∷ (sized c ++ mode ∷ [])) (omega (arith, length-append (sized c) (mode ∷ []))) _ (
      rw
        (
          append_u8-grown op empty_buffer o,
          append_string-grown c (grown empty_buffer (op ∷ [])) b (omega arith),
        )
        (append_u8-grown mode (grown (grown empty_buffer (op ∷ [])) (sized c)) m))

publish-frame :
    (c p : List ℕ)
    → IsSendable (publish c p)
    → encode_publish c p ≡ record { bytes = sized (body (publish c p)); failed = false }
unfolding encode_publish
publish-frame c p ((b, n), (_, k), both) =
    framed (body (publish c p)) (omega (arith, length-append c (sized p))) _ (
      rw
        (
          append_u8-grown 5 empty_buffer (omega arith),
          append_string-grown c (grown empty_buffer (5 ∷ [])) b (omega arith),
        )
        (append_bytes-grown p (grown (grown empty_buffer (5 ∷ [])) (sized c)) (omega arith)))

deliver-frame :
    (c : List ℕ) (mode : AttachmentMode) (p : List ℕ)
    → IsSendable (deliver c mode p)
    → encode_deliver c mode p ≡ record { bytes = sized (body (deliver c mode p)); failed = false }
unfolding encode_deliver
deliver-frame c mode p ((b, n), m, (_, k), both) =
    framed (body (deliver c mode p))
      (omega (arith, length-append c (mode_byte mode ∷ [] ++ sized p))) _
      (rw
        (
          append_u8-grown 6 empty_buffer (omega arith),
          append_string-grown c (grown empty_buffer (6 ∷ [])) b (omega arith),
          append_u8-grown (mode_byte mode) (grown (grown empty_buffer (6 ∷ [])) (sized c))
              (mode_byte-lt mode m),
        )
        (append_bytes-grown p
            (grown (grown (grown empty_buffer (6 ∷ [])) (sized c)) (mode_byte mode ∷ []))
            (omega arith)
          ∙ ap (λ (l : List ℕ). record { bytes = 6 ∷ l; failed = false })
              (append_assoc (sized c) (mode_byte mode ∷ []) (sized p))))

encode-frame :
    (s : Sent) → IsSendable s → encode s ≡ record { bytes = sized (body s); failed = false }
unfolding encode_hello encode_bye encode_attach encode_detach encode_ack encode_error
    encode_channel_op
encode-frame (hello pid kind) (p, k) = framed (body (hello pid kind)) (omega arith) _ (
    rw (append_u8-grown 1 empty_buffer (omega arith), append_u64-grown)
      (append_u8-grown (kind_byte kind) (grown (grown empty_buffer (1 ∷ [])) (bytes_of 8 pid))
        (kind_byte-lt kind k)))
encode-frame bye h = framed (2 ∷ []) (omega arith) _ (append_u8-grown 2 empty_buffer (omega arith))
encode-frame (attach c mode) (t, m) =
    mode-frame 3 c (mode_byte mode) (omega arith) t (mode_byte-lt mode m)
encode-frame (detach c mode) (t, m) =
    mode-frame 4 c (mode_byte mode) (omega arith) t (mode_byte-lt mode m)
encode-frame (publish c p) h = publish-frame c p h
encode-frame (deliver c mode p) h = deliver-frame c mode p h
encode-frame ack h = framed (7 ∷ []) (omega arith) _ (append_u8-grown 7 empty_buffer (omega arith))
encode-frame (error t) h = text-frame 8 t (omega arith) h
encode-frame (channel_offer c) h = text-frame 9 c (omega arith) h
encode-frame (channel_accept c) h = text-frame 10 c (omega arith) h
encode-frame (channel_busy c) h = text-frame 11 c (omega arith) h
encode-frame (channel_recv_ready c) h = text-frame 12 c (omega arith) h
encode-frame (channel_data_ack c) h = text-frame 13 c (omega arith) h

-- For every encoder, with texts of bytes shorter than 2 ^ 31, a pid of 64 bits, and modes and kinds
-- that the enums name: the frame is the body behind its length in four bytes, with no error flagged;
-- and `decode_message` gives, from any memory that holds the body at its start, the message that was
-- meant, having read exactly the body and flagged no error.
pub decode_message-encode :
    (s : Sent) (memory : ℕ → ℕ)
    → IsSendable s
    → At memory 0 (body s)
    → (encode s ≡ record { bytes = sized (body s); failed = false })
      × (decode_message memory (length (body s))
          ≡ (meant s, reader memory (length (body s)) (length (body s))))
unfolding decode_message
decode_message-encode s memory h at = (
  encode-frame s h,
  (>>=-Reads u8 (λ k. decode_fields (opcode_of k)) (opcode_byte (meant s).kind ∷ []) (fields s)
        (opcode_byte (meant s).kind) (meant s) (u8-Reads (opcode_byte (meant s).kind))
        (subst (λ k. Reads (decode_fields k) (fields s) (meant s)) (sym (opcode_of-byte s))
          (fields-Reads s h))
        memory (length (body s)) 0 at (omega arith)
      ∙ ap (λ c. (meant s, reader memory (length (body s)) c)) (omega arith)),
)
