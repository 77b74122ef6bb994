-- ===== src/Iso/Negotiate.antt =====
-- source/iso.c: what `iso_connect` agrees on, and in which state it leaves the connection.
use rdesktopce_rdp.Prelude.{
  ℕ, ◌+◌, ◌≡◌, ◌⊎◌, inl, inr, refl, ap, ◌∙◌, subst, Bool, true, false, Option, none, some, List, [],
  ◌∷◌, ◌==◌, ◌&&◌, not, if◌then◌else◌, length, Bool-cases,
}
use rdesktopce_rdp.Tcp.{Net, tcp_disconnect}
use rdesktopce_rdp.Link
use rdesktopce_rdp.Link.{N, pure, ◌>>=◌, ◌>>◌, on_in, on_out, init, send}
use rdesktopce_rdp.Link.Keeps
use rdesktopce_rdp.Link.Keeps.{Keeps, Shows}
use rdesktopce_rdp.Iso.{iso_send_connection_request}
use rdesktopce_rdp.Iso.Wire.{out_request}
use rdesktopce_rdp.Iso.Keeps.{
  connected, init-Keeps, send-Keeps, iso_send_msg-Keeps, iso_recv_msg-Keeps,
}
use rdesktopce_rdp.Iso.Connect.{
  Attempt, Verdict, lost, refused, retry, selected, opened, close, in_response, has_response,
  negotiated, replied, attempt, Connected, decided, connect_loop, iso_connect,
}

-- The state of the connection after a round that found it `was`: closed where the round was refused or is retried.
-- A protocol is plain, or TLS after a successful handshake.
abbrev Leaves : Bool → Bool → Option (Verdict × Net) → Type 0
Leaves tls was none = Unit
Leaves tls was (some (lost, net)) = net.connected ≡ was
Leaves tls was (some (refused, net)) = net.connected ≡ false
Leaves tls was (some (retry, net)) = net.connected ≡ false
Leaves tls was (some (selected protocol, net)) =
    (net.connected ≡ was) × ((protocol ≡ 0) ⊎ ((protocol ≡ 1) × (tls ≡ true)))

record Round (tls : Bool) (m : N Verdict) : Type 0 where
  run : (net : Net) → Leaves tls net.connected (m net)

Leaves-bind :
    {A : Type 0} (tls : Bool) (net : Net) (r : Option (A × Net)) (f : A → N Verdict)
    → Shows connected net r
    → ((a : A) → Round tls (f a))
    → Leaves tls net.connected (Link.bind r f)
Leaves-bind tls net none f h k = tt
Leaves-bind tls net (some (a, net')) f h k =
    subst (λ was. Leaves tls was (f a net')) h ((k a).run net')

then_round :
    {A : Type 0} {m : N A} {f : A → N Verdict} (tls : Bool)
    → Keeps connected m
    → ((a : A) → Round tls (f a))
    → Round tls (m >>= f)
then_round {m} {f} tls h k = record { run = λ net. Leaves-bind tls net (m net) f (h.run net) k }

negotiated-Round : (tls : Bool) (response : ℕ × ℕ) → Round tls (negotiated tls response)
unfolding negotiated close tcp_disconnect
negotiated-Round tls (type, value) = record {
  run = λ net. elim (Bool-cases (type == 2)) [
    | inr e ↦ rw e refl
    | inl e ↦ elim (Bool-cases (value == 1)) [
      | inl f ↦ elim (Bool-cases tls) [
        | inl on ↦ rw (e, f, on) (refl, inr (refl, refl))
        | inr off ↦ rw (e, f, off) refl
      ]
      | inr f ↦ elim (Bool-cases (value == 0)) [
        | inl g ↦ rw (e, f, g) (refl, inl refl)
        | inr g ↦ rw (e, f, g) refl
      ]
    ]
  ];
}

confirmed-Round :
    (rdp5 tls there : Bool)
    → Round tls (
        if rdp5 && there
        then (do response ← on_in in_response; negotiated tls response)
        else pure (selected 0))
confirmed-Round rdp5 tls there = elim (Bool-cases (rdp5 && there)) [
  | inl e ↦ rw e (
      then_round tls (Keeps.on_in-Keeps connected (λ net s. refl) in_response)
        (negotiated-Round tls))
  | inr e ↦ rw e (record { run = λ net. (refl, inl refl) })
]

replied-Round : (rdp5 tls : Bool) (msg : Option (ℕ × ℕ)) → Round tls (replied rdp5 tls msg)
unfolding replied close tcp_disconnect
replied-Round rdp5 tls none = record { run = λ net. refl }
replied-Round rdp5 tls (some (code, version)) = elim (Bool-cases (code == 0xd0)) [
  | inl e ↦
      let keeps : Keeps connected has_response = record { run = λ net. refl } in
      rw e (then_round tls keeps (confirmed-Round rdp5 tls))
  | inr e ↦ rw e (record { run = λ net. refl })
]

request-Keeps :
    (negotiate : Bool) (username : List ℕ)
    → Keeps connected (iso_send_connection_request negotiate username)
unfolding iso_send_connection_request
request-Keeps negotiate username =
    let len = 30 + length username + (if negotiate then 8 else 0) in
    Keeps.seq connected (init-Keeps len) (
      Keeps.seq connected
        (Keeps.on_out-Keeps connected (λ net s. refl) (out_request negotiate username len))
        send-Keeps)

attempt-Round :
    (rdp5 negotiate reconnect : Bool) (username : List ℕ) (tls : Bool)
    → Round tls (attempt rdp5 negotiate reconnect username tls)
unfolding attempt
attempt-Round rdp5 negotiate reconnect username tls =
    then_round tls
      (Keeps.branch connected reconnect (iso_send_msg-Keeps 0xe0)
        (request-Keeps (rdp5 && negotiate) username))
      λ _.
        then_round tls (iso_recv_msg-Keeps connected (λ net es s. refl) 0) (replied-Round rdp5 tls)

-- On success the connection is open, and it is plain with the encryption flag as it was, or it is TLS and the
-- layers above do not encrypt; on failure the flag and the protocol are as they were.
abbrev pub Agreed : Bool → Option (Connected × Net) → Type 0
Agreed encryption none = Unit
Agreed encryption (some (c, net)) =
    ((c.result ≡ false) × (c.selected_protocol ≡ 0) × (c.encryption ≡ encryption))
    ⊎ ((c.result ≡ true)
        × (net.connected ≡ true)
        × (((c.selected_protocol ≡ 0) × (c.encryption ≡ encryption))
            ⊎ ((c.selected_protocol ≡ 1) × (c.encryption ≡ false))))

and_true : (b : Bool) → (b && true) ≡ b
and_true true = refl
and_true false = refl

and_false : (b : Bool) → (b && false) ≡ false
and_false true = refl
and_false false = refl

decided-Agreed :
    (encryption tls : Bool) (again : Net → Option (Connected × Net)) (r : Option (Verdict × Net))
    → ((net : Net) → Agreed encryption (again net))
    → Leaves tls true r
    → Agreed encryption (decided encryption again r)
unfolding decided
decided-Agreed encryption tls again none h l = tt
decided-Agreed encryption tls again (some (lost, net)) h l = inl (refl, refl, refl)
decided-Agreed encryption tls again (some (refused, net)) h l = inl (refl, refl, refl)
decided-Agreed encryption tls again (some (retry, net)) h l = h net
decided-Agreed encryption tls again (some (selected protocol, net)) h (up, inl e) =
    inr (refl, up, inl (e, ap (λ p. encryption && not (p == 1)) e ∙ and_true encryption))
decided-Agreed encryption tls again (some (selected protocol, net)) h (up, inr (e, on)) =
    inr (refl, up, inr (e, ap (λ p. encryption && not (p == 1)) e ∙ and_false encryption))

connect_loop-Agreed :
    (rdp5 reconnect : Bool) (username : List ℕ) (encryption negotiate : Bool)
    (tries : List (Option Attempt)) (net : Net)
    → Agreed encryption (connect_loop rdp5 reconnect username encryption negotiate tries net)
unfolding connect_loop
connect_loop-Agreed rdp5 reconnect username encryption negotiate [] net = inl (refl, refl, refl)
connect_loop-Agreed rdp5 reconnect username encryption negotiate (none ∷ tries) net =
    inl (refl, refl, refl)
connect_loop-Agreed rdp5 reconnect username encryption negotiate (some a ∷ tries) net =
    decided-Agreed encryption a.tls
      (λ net'. connect_loop rdp5 reconnect username encryption false tries net')
      (attempt rdp5 negotiate reconnect username a.tls (opened a net))
      (λ net'. connect_loop-Agreed rdp5 reconnect username encryption false tries net')
      ((attempt-Round rdp5 negotiate reconnect username a.tls).run (opened a net))

-- However many attempts it takes and whatever the server answers, `iso_connect` faults, or
-- succeeds with an open connection that is either plain, with the encryption flag as it was, or
-- TLS, with the layers above not to encrypt, or fails with the flag as it was and the plain
-- protocol.
pub iso_connect-Agreed :
    (rdp5 reconnect : Bool) (username : List ℕ) (encryption : Bool) (tries : List (Option Attempt))
    (net : Net)
    → Agreed encryption (iso_connect rdp5 reconnect username encryption tries net)
unfolding iso_connect
iso_connect-Agreed rdp5 reconnect username encryption tries net =
    connect_loop-Agreed rdp5 reconnect username encryption true tries net
