-- ===== src/PipeHub/Daemon/Close.antt =====
-- include/pipe_hub_daemon.hpp: what `close_client` leaves.
use mathlib.Core.Bool.{◌||◌}
use munchkinglang.Prelude.{
  ℕ, List, [], ◌∷◌, Bool, true, false, none, some, ◌≡◌, ◌⊎◌, inl, inr, refl, sym, ap, ◌∙◌, arith,
  ◌==◌, if◌then◌else◌, Bool-cases, Option-cases, ==_iff,
}
use munchkinglang.Mir.Runtime.{same_bytes}
use munchkinglang.Mir.Runtime.Bytes.{same_bytes_self, same_bytes-path}
use munchkinglang.PipeHub.Protocol.{AttachmentMode}
use munchkinglang.PipeHub.Channel.{ChannelState, remove_client_from_channel}
use munchkinglang.PipeHub.Channel.Remove.{Role, has_role, remove_client_from_channel-has_role}
use munchkinglang.PipeHub.Daemon.{
  ClientState, Daemon, maybe_erase_channel, detach_from, detach_all, close_client,
}

unfoldable pub mentions : List ℕ → List (List ℕ × AttachmentMode) → Bool
mentions name [] = false
mentions name ((n, mode) ∷ rest) = same_bytes name n || mentions name rest

-- A client that has a role in a channel has an attachment to it.
abbrev pub IsRecorded : Daemon → Type 0
IsRecorded d =
    (id : ℕ) (name : List ℕ) (c : ChannelState) (r : Role)
    → d.channels name ≡ some c
    → has_role r id c ≡ true
    → (s : ClientState) × (d.clients id ≡ some s) × (mentions name s.attachments ≡ true)

-- Each channel that is left was there, and no client has a role it had not.
Shrinks : Daemon → Daemon → Type 0
Shrinks d e =
    (name : List ℕ) (c : ChannelState)
    → e.channels name ≡ some c
    → (b : ChannelState) × (d.channels name ≡ some b)
      × ((r : Role) (id : ℕ) → has_role r id c ≡ true → has_role r id b ≡ true)

IsAbsent : ℕ → List ℕ → Daemon → Type 0
IsAbsent id name d =
    (c : ChannelState) (r : Role) → d.channels name ≡ some c → has_role r id c ≡ false

IsAbsent-Shrinks :
    (id : ℕ) (name : List ℕ) (d e : Daemon) → Shrinks d e → IsAbsent id name d → IsAbsent id name e
unfolding IsAbsent Shrinks
IsAbsent-Shrinks id name d e s a c r p =
    let (b, q, kept) = s name c p in
    elim (Bool-cases (has_role r id c)) [
      | inl h ↦ absurd (ground (arith, kept r id h, a b r q))
      | inr h ↦ h
    ]

-- A channel after the round is the one before, or what the removal leaves of it.
pub detach_from-channels :
    (id : ℕ) (name n : List ℕ) (d : Daemon) (c : ChannelState)
    → (detach_from id name d).channels n ≡ some c
    → ((same_bytes n name ≡ true)
        × (b : ChannelState) × (d.channels name ≡ some b)
        × (c ≡ remove_client_from_channel b id))
      ⊎ ((same_bytes n name ≡ false) × (d.channels n ≡ some c))
unfolding detach_from maybe_erase_channel
detach_from-channels id name n d c p = elim (Option-cases (d.channels name)) [
  | inl q ↦ elim (Bool-cases (same_bytes n name)) [
    | inl h ↦ absurd (grind (arith, same_bytes-path n name h))
    | inr h ↦ inr (h, grind arith)
  ]
  | inr (b, q) ↦ elim (Bool-cases (same_bytes n name)) [
    | inl h ↦ inl (h, b, q, grind (arith, same_bytes_self name))
    | inr h ↦ inr (h, grind (arith, same_bytes_self name))
  ]
]

detach_from-Shrinks : (id : ℕ) (name : List ℕ) (d : Daemon) → Shrinks d (detach_from id name d)
unfolding Shrinks
detach_from-Shrinks id name d n c p = elim (detach_from-channels id name n d c p) [
  | inl (h, b, q, e) ↦ (
    b,
    grind (arith, same_bytes-path n name h),
    λ r o held. grind (arith, remove_client_from_channel-has_role r b id o),
  )
  | inr (h, q) ↦ (c, q, λ r o held. held)
]

detach_from-IsAbsent :
    (id : ℕ) (name n : List ℕ) (d : Daemon)
    → same_bytes n name ≡ true
    → IsAbsent id n (detach_from id name d)
unfolding IsAbsent
detach_from-IsAbsent id name n d h c r p = elim (detach_from-channels id name n d c p) [
  | inl (h', b, q, e) ↦ grind (arith, remove_client_from_channel-has_role r b id id)
  | inr (h', q) ↦ absurd (ground (arith, h, h'))
]

Shrinks-trans : (d e f : Daemon) → Shrinks d e → Shrinks e f → Shrinks d f
unfolding Shrinks
Shrinks-trans d e f s t n c p =
    let (b, q, kept) = t n c p in
    let (a, q', kept') = s n b q in (a, q', λ r o held. kept' r o (kept r o held))

detach_all-Shrinks :
    (id : ℕ) (names : List (List ℕ × AttachmentMode)) (d : Daemon)
    → Shrinks d (detach_all id names d)
unfolding Shrinks detach_all
detach_all-Shrinks id [] d = λ n c p. (c, p, λ r o held. held)
detach_all-Shrinks id ((name, mode) ∷ rest) d =
    Shrinks-trans d (detach_from id name d) (detach_all id rest (detach_from id name d))
      (detach_from-Shrinks id name d) (detach_all-Shrinks id rest (detach_from id name d))

detach_all-IsAbsent :
    (id : ℕ) (names : List (List ℕ × AttachmentMode)) (n : List ℕ) (d : Daemon)
    → mentions n names ≡ true
    → IsAbsent id n (detach_all id names d)
unfolding mentions detach_all
detach_all-IsAbsent id [] n d h = absurd (cc)
detach_all-IsAbsent id ((name, mode) ∷ rest) n d h = elim (Bool-cases (same_bytes n name)) [
  | inl e ↦
      IsAbsent-Shrinks id n (detach_from id name d) (detach_all id rest (detach_from id name d))
        (detach_all-Shrinks id rest (detach_from id name d)) (detach_from-IsAbsent id name n d e)
  | inr e ↦ detach_all-IsAbsent id rest n (detach_from id name d) (ground (arith, h, e))
]

detach_from-clients :
    (id : ℕ) (name : List ℕ) (d : Daemon) → (detach_from id name d).clients ≡ d.clients
unfolding detach_from maybe_erase_channel
detach_from-clients id name d = grind arith

detach_all-clients :
    (id : ℕ) (names : List (List ℕ × AttachmentMode)) (d : Daemon)
    → (detach_all id names d).clients ≡ d.clients
unfolding detach_all detach_from maybe_erase_channel
detach_all-clients id [] d = refl
detach_all-clients id ((name, mode) ∷ rest) d =
    detach_all-clients id rest (detach_from id name d) ∙ detach_from-clients id name d

pub close_client-none : (id : ℕ) (d : Daemon) → d.clients id ≡ none → close_client id d ≡ d
unfolding close_client
close_client-none id d q = grind arith

pub close_client-channels :
    (id : ℕ) (d : Daemon) (s : ClientState) (name : List ℕ)
    → d.clients id ≡ some s
    → (close_client id d).channels name ≡ (detach_all id s.attachments d).channels name
unfolding close_client
close_client-channels id d s name q = grind arith

close_client-clients :
    (id other : ℕ) (d : Daemon)
    → (close_client id d).clients other ≡ (if other == id then none else d.clients other)
unfolding close_client
close_client-clients id other d = elim (Option-cases (d.clients id)) [
  | inl q ↦ grind arith
  | inr (s, q) ↦ grind (arith, ap (λ f. f other) (detach_all-clients id s.attachments d))
]

close_client-Shrinks : (id : ℕ) (d : Daemon) → Shrinks d (close_client id d)
unfolding Shrinks
close_client-Shrinks id d n c p = elim (Option-cases (d.clients id)) [
  | inl q ↦ (c, sym (ap (λ e. e.channels n) (close_client-none id d q)) ∙ p, λ r o held. held)
  | inr (s, q) ↦
      detach_all-Shrinks id s.attachments d n c (sym (close_client-channels id d s n q) ∙ p)
]

close_client-IsAbsent :
    (id : ℕ) (name : List ℕ) (d : Daemon) → IsRecorded d → IsAbsent id name (close_client id d)
unfolding IsAbsent Shrinks
close_client-IsAbsent id name d recorded c r p = elim (Bool-cases (has_role r id c)) [
  | inr h ↦ h
  | inl h ↦
      let (b, q, kept) = close_client-Shrinks id d name c p in
      let (s, q', m) = recorded id name b r q (kept r id h) in
      detach_all-IsAbsent id s.attachments name d m c r
        (sym (close_client-channels id d s name q') ∙ p)
]

-- Where every client with a role in a channel is there and has an attachment to it: a client is gone
-- when it has been closed, and no channel that is left names it in any role.
pub close_client-has_role :
    (d : Daemon) (id : ℕ) (name : List ℕ) (c : ChannelState) (r : Role)
    → IsRecorded d
    → (close_client id d).channels name ≡ some c
    → ((close_client id d).clients id ≡ none) × (has_role r id c ≡ false)
unfolding IsAbsent
close_client-has_role d id name c r recorded p =
    (grind (arith, close_client-clients id id d), close_client-IsAbsent id name d recorded c r p)

-- To close a client keeps this invariant: every client with a role in a channel is there, and has an
-- attachment to it.
pub close_client-IsRecorded : (d : Daemon) (id : ℕ) → IsRecorded d → IsRecorded (close_client id d)
unfolding Shrinks IsAbsent
close_client-IsRecorded d id recorded other name c r p held =
    let (b, q, kept) = close_client-Shrinks id d name c p in
    let (s, q', m) = recorded other name b r q (kept r other held) in
    elim (Bool-cases (other == id)) [
      | inl e ↦
          absurd
            (grind (arith, held, ==_iff other id, close_client-IsAbsent id name d recorded c r p))
      | inr e ↦ (s, grind (arith, close_client-clients id other d), m)
    ]
