-- ===== src/PipeHub/Daemon/Bounds.antt =====
-- include/pipe_hub_daemon.hpp: steps that keep every backlog and every pair of peers in bounds.
pub mod Routing
pub mod Peers
pub mod Dispatch
use mathlib.Core.Bool.{◌&&◌, ◌||◌, not}
use mathlib.Core.Path.{subst}
use mathlib.Core.Option.{some-injective}
use munchkinglang.Prelude.{
  ℕ, zero, suc, ◌+◌, ◌≤◌, List, [], ◌∷◌, Bool, true, false, Option, none, some, ◌≡◌, ◌⊎◌, inl, inr,
  refl, sym, ap, ◌∙◌, arith, ◌==◌, leb, if◌then◌else◌, length, Bool-cases, Option-cases, same_some,
}
use munchkinglang.Mir.Runtime.{same_bytes}
use munchkinglang.PipeHub.Protocol.{AttachmentMode}
use munchkinglang.PipeHub.Channel.{
  ChannelState, max_pending, empty_channel, erase_id, clear_offer, clear_recv_ready, clear_data_ack,
  remove_client_from_channel, is_unused,
}
use munchkinglang.PipeHub.Daemon.{
  ClientState, Daemon, Outcome, Step, ◌>>=◌, pure, after, put_channel, put_client, open_channel,
  same_channel, store_channel, client_at, same_client, store_client, has_client, deliver_to_client,
  maybe_erase_channel, detach_from, detach_all, close_client, closing, send_frame, send_ack,
  send_error, deliver_payload,
}
use munchkinglang.PipeHub.Daemon.Close.{
  detach_from-channels, close_client-none, close_client-channels,
}

abbrev pub ChannelFits : ChannelState → Type 0
ChannelFits c = (length c.pending ≤ max_pending) × (length c.channel_peers ≤ 2)

abbrev pub Fits : Daemon → Type 0
Fits d = (name : List ℕ) (c : ChannelState) → d.channels name ≡ some c → ChannelFits c

abbrev pub Ends : {A : Type 0} → (A → Type 0) → Outcome A → Type 0
Ends Q (Outcome.done a d) = Fits d × Q a
Ends Q Outcome.thrown = Unit
Ends Q Outcome.undefined = Unit

-- From a daemon in bounds, the step ends in one, with a value that `Q` holds of.
pub record Keeps {A : Type 0} (m : Step A) (Q : A → Type 0) : Type 0 where
  pub run : (d : Daemon) → Fits d → Ends Q (m d)

abbrev pub Anything : {A : Type 0} → A → Type 0
Anything _ = Unit

after-Ends :
    {A B : Type 0} {Q : A → Type 0} {R : B → Type 0} {f : A → Step B} (o : Outcome A)
    → Ends Q o
    → ((a : A) → Q a → Keeps (f a) R)
    → Ends R (after o f)
after-Ends (Outcome.done a d) (fits, q) k = (k a q).run d fits
after-Ends Outcome.thrown h k = tt
after-Ends Outcome.undefined h k = tt

pub then_ :
    {A B : Type 0} {Q : A → Type 0} {R : B → Type 0} {m : Step A} {f : A → Step B}
    → Keeps m Q
    → ((a : A) → Q a → Keeps (f a) R)
    → Keeps (m >>= f) R
then_ {m} h k = record { run = λ d fits. after-Ends (m d) (h.run d fits) k }

pub pure-Keeps : {A : Type 0} {Q : A → Type 0} (a : A) → Q a → Keeps (pure a) Q
pure-Keeps a q = record { run = λ d fits. (fits, q) }

put_channel-Fits :
    (name : List ℕ) (o : Option ChannelState) (d : Daemon)
    → ((c : ChannelState) → o ≡ some c → ChannelFits c)
    → Fits d
    → Fits (put_channel name o d)
put_channel-Fits name o d h fits n c p = elim (Bool-cases (same_bytes n name)) [
  | inl q ↦ h c (grind arith)
  | inr q ↦ fits n c (grind arith)
]

opened :
    (name : List ℕ) (d : Daemon) (o : Option ChannelState)
    → d.channels name ≡ o
    → Fits d
    → Ends ChannelFits (elim o [
      | none ↦ Outcome.done empty_channel (put_channel name (some empty_channel) d)
      | some c ↦ Outcome.done c d
    ])
opened name d none e fits =
    let empty : ChannelFits empty_channel = (omega arith, omega arith) in
    (
      put_channel-Fits name (some empty_channel) d
          (λ c p. subst ChannelFits (some-injective _ _ p) empty) fits,
      empty,
    )
opened name d (some c) e fits = (fits, fits name c e)

pub open_channel-Keeps : (name : List ℕ) → Keeps (open_channel name) ChannelFits
unfolding open_channel
open_channel-Keeps name = record { run = λ d fits. opened name d (d.channels name) refl fits }

reopened :
    (name : List ℕ) (d : Daemon) (o : Option ChannelState)
    → d.channels name ≡ o
    → Fits d
    → Ends ChannelFits (elim o [ none ↦ Outcome.undefined | some c ↦ Outcome.done c d ])
reopened name d none e fits = tt
reopened name d (some c) e fits = (fits, fits name c e)

pub same_channel-Keeps : (name : List ℕ) → Keeps (same_channel name) ChannelFits
unfolding same_channel
same_channel-Keeps name = record { run = λ d fits. reopened name d (d.channels name) refl fits }

pub store_channel-Keeps :
    (name : List ℕ) (c : ChannelState) → ChannelFits c → Keeps (store_channel name c) Anything
unfolding store_channel
store_channel-Keeps name c h = record {
  run = λ d fits. (
    put_channel-Fits name (some c) d (λ k p. subst ChannelFits (some-injective _ _ p) h) fits,
    tt,
  );
}

found :
    (d : Daemon) (o : Option ClientState) (otherwise : Outcome ClientState)
    → Fits d
    → Ends Anything otherwise
    → Ends Anything (elim o [ none ↦ otherwise | some c ↦ Outcome.done c d ])
found d none otherwise fits h = h
found d (some c) otherwise fits h = (fits, tt)

pub client_at-Keeps : (id : ℕ) → Keeps (client_at id) Anything
unfolding client_at
client_at-Keeps id = record { run = λ d fits. found d (d.clients id) Outcome.thrown fits tt }

pub same_client-Keeps : (id : ℕ) → Keeps (same_client id) Anything
unfolding same_client
same_client-Keeps id = record { run = λ d fits. found d (d.clients id) Outcome.undefined fits tt }

pub store_client-Keeps : (id : ℕ) (c : ClientState) → Keeps (store_client id c) Anything
unfolding store_client
store_client-Keeps id c = record { run = λ d fits. (fits, tt) }

has_of :
    (d : Daemon) (o : Option ClientState)
    → Fits d
    → Ends Anything (elim o [ none ↦ Outcome.done false d | some _ ↦ Outcome.done true d ])
has_of d none fits = (fits, tt)
has_of d (some c) fits = (fits, tt)

pub has_client-Keeps : (id : ℕ) → Keeps (has_client id) Anything
unfolding has_client
has_client-Keeps id = record { run = λ d fits. has_of d (d.clients id) fits }

pub deliver_to_client-Keeps :
    (id : ℕ) (frame : List ℕ) → Keeps (deliver_to_client id frame) Anything
unfolding deliver_to_client
deliver_to_client-Keeps id frame = record { run = λ d fits. (fits, tt) }

length-erase_id : (id : ℕ) (xs : List ℕ) → length (erase_id id xs) ≤ length xs
unfolding erase_id
length-erase_id id [] = omega arith
length-erase_id id (x ∷ xs) = ground (arith, length-erase_id id xs)

remove_client-ChannelFits :
    (c : ChannelState) (id : ℕ) → ChannelFits c → ChannelFits (remove_client_from_channel c id)
unfolding remove_client_from_channel clear_offer clear_recv_ready clear_data_ack
remove_client-ChannelFits c id (p, q) = ground (arith, length-erase_id id c.channel_peers)

detach_from-Fits : (id : ℕ) (name : List ℕ) (d : Daemon) → Fits d → Fits (detach_from id name d)
detach_from-Fits id name d fits n c p = elim (detach_from-channels id name n d c p) [
  | inl (_, b, q, e) ↦ subst ChannelFits (sym e) (remove_client-ChannelFits b id (fits name b q))
  | inr (_, q) ↦ fits n c q
]

detach_all-Fits :
    (id : ℕ) (names : List (List ℕ × AttachmentMode)) (d : Daemon)
    → Fits d
    → Fits (detach_all id names d)
unfolding detach_all
detach_all-Fits id [] d fits = fits
detach_all-Fits id ((name, mode) ∷ rest) d fits =
    detach_all-Fits id rest (detach_from id name d) (detach_from-Fits id name d fits)

close_client-Fits : (id : ℕ) (d : Daemon) → Fits d → Fits (close_client id d)
close_client-Fits id d fits n c p = elim (Option-cases (d.clients id)) [
  | inl q ↦ fits n c (sym (ap (λ e. e.channels n) (close_client-none id d q)) ∙ p)
  | inr (s, q) ↦
      detach_all-Fits id s.attachments d fits n c (sym (close_client-channels id d s n q) ∙ p)
]

pub closing-Keeps : (id : ℕ) → Keeps (closing id) Anything
unfolding closing
closing-Keeps id = record { run = λ d fits. (close_client-Fits id d fits, tt) }

pub detaching-Keeps :
    (id : ℕ) (name : List ℕ) → Keeps (λ d. Outcome.done tt (detach_from id name d)) Anything
detaching-Keeps id name = record { run = λ d fits. (detach_from-Fits id name d fits, tt) }

erased :
    (name n : List ℕ) (c : ChannelState) (d : Daemon)
    → (maybe_erase_channel name d).channels n ≡ some c
    → d.channels n ≡ some c
unfolding maybe_erase_channel
erased name n c d p = elim (Option-cases (d.channels name)) [
  | inl q ↦ grind arith
  | inr (b, q) ↦ elim (Bool-cases (is_unused b)) [
    | inl u ↦ elim (Bool-cases (same_bytes n name)) [
      | inl h ↦ absurd (grind arith)
      | inr h ↦ grind arith
    ]
    | inr u ↦ grind arith
  ]
]

pub unused-Keeps :
    (name : List ℕ) → Keeps (λ d. Outcome.done false (maybe_erase_channel name d)) Anything
unused-Keeps name = record { run = λ d fits. ((λ n c p. fits n c (erased name n c d p)), tt) }

-- A test on a computed value.
pub either-Keeps :
    {A : Type 0} {Q : A → Type 0} {x y : Step A} (b : Bool)
    → (b ≡ true → Keeps x Q)
    → (b ≡ false → Keeps y Q)
    → Keeps (elim b [ true ↦ x | false ↦ y ]) Q
either-Keeps true hx hy = hx refl
either-Keeps false hx hy = hy refl

pub send_frame-Keeps : (id : ℕ) (frame : List ℕ) → Keeps (send_frame id frame) Anything
unfolding send_frame
send_frame-Keeps id frame = then_ (has_client-Keeps id) (λ b _.
    either-Keeps b
      (λ _. then_ (deliver_to_client-Keeps id frame) (λ s _.
        either-Keeps s (λ _. pure-Keeps true tt)
          (λ _. then_ (closing-Keeps id) (λ _ _. pure-Keeps false tt))))
      (λ _. pure-Keeps false tt))

pub send_ack-Keeps : (id : ℕ) → Keeps (send_ack id) Anything
unfolding send_ack
send_ack-Keeps id = send_frame-Keeps id _

pub send_error-Keeps : (id : ℕ) (text : List ℕ) → Keeps (send_error id text) Anything
unfolding send_error
send_error-Keeps id text = send_frame-Keeps id _

pub deliver_payload-Keeps :
    (id : ℕ) (channel : List ℕ) (mode : AttachmentMode) (payload : List ℕ)
    → Keeps (deliver_payload id channel mode payload) Anything
unfolding deliver_payload
deliver_payload-Keeps id channel mode payload = deliver_to_client-Keeps id _

-- A test for a backlog, with what is known of it.
pub backlog-Keeps :
    {A : Type 0} {Q : A → Type 0} {x : Step A} {y : List ℕ → List (List ℕ) → Step A}
    (pending : List (List ℕ))
    → Keeps x Q
    → ((payload : List ℕ) (rest : List (List ℕ))
        → length rest ≤ length pending
        → Keeps (y payload rest) Q)
    → Keeps (elim pending [ [] ↦ x | payload ∷ rest ↦ y payload rest ]) Q
backlog-Keeps [] hx hy = hx
backlog-Keeps (payload ∷ rest) hx hy = hy payload rest (omega arith)
