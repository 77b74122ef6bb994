-- ===== src/Mcs/Join.antt =====
-- Joining channels: requests, confirmations, and where the loop stops.
use rdesktopce_rdp.Prelude.{
  ℕ, ◌/◌, ◌%◌, ◌^◌, ◌≡◌, refl, sym, ap, ◌∙◌, Bool, true, false, Option, some, List, [], ◌∷◌, ◌++◌,
  map, arith, ◌==◌, ◌&&◌, if◌then◌else◌, append_assoc, append-nil, Bool-cases, inl, inr,
}
use rdesktopce_rdp.Stream.{Stream, byte, in_uint8, in_uint8s, s_check_end}
use rdesktopce_rdp.Tcp.{Net}
use rdesktopce_rdp.Tcp.Recv.{avail}
use rdesktopce_rdp.Tcp.Send.{Healthy}
use rdesktopce_rdp.Link
use rdesktopce_rdp.Iso.Frame.{frame, iso_packet-Sent}
use rdesktopce_rdp.Iso.Recv.{iso_recv-frame}
use rdesktopce_rdp.Mcs.Pdu.{in_cjcf, check_end}
use rdesktopce_rdp.Mcs.Bodies.{cjrq, out_cjrq-Writes}
use rdesktopce_rdp.Mcs.{mcs_send_cjrq, mcs_recv_cjcf, expect, answer, join, join_all}

-- A confirmation with its channel: code and flag, result, user, channel asked for, channel.
abbrev pub cjcf : ℕ → ℕ → ℕ → List ℕ
cjcf result userid chanid =
    62
    ∷ result
    ∷ byte (userid / 256)
    ∷ byte userid
    ∷ byte (chanid / 256)
    ∷ byte chanid
    ∷ byte (chanid / 256)
    ∷ byte chanid
    ∷ []

-- An action that sent `packet`, read the peer up to `rest`, and returned `a`.
pub record Answered {A : Type 0} (net : Net) (packet rest : List ℕ) (a : A) (r : Option (A × Net))
    : Type 0 where
  pub net' : Net
  pub result : r ≡ some (a, net')
  pub wire : net'.wire ≡ net.wire ++ packet
  pub healthy : Healthy net'.outgoing
  pub unread : avail net'.incoming ≡ rest

in_cjcf_lem :
    (s : Stream) (result userid chanid : ℕ) (tail : List ℕ)
    → (s' : Stream) × (in_cjcf
          (record s { bytes = frame (cjcf result userid chanid) ++ tail; p = 7; end = 15 })
        ≡ some (result == 0, s'))
unfolding in_cjcf in_uint8 in_uint8s check_end s_check_end
in_cjcf_lem s result userid chanid tail = elim (Bool-cases (result == 0)) [
  | inl ok ↦
      (record s { bytes = frame (cjcf result userid chanid) ++ tail; p = 15; end = 15 }, rw (ok))
  | inr refused ↦ (
    record s { bytes = frame (cjcf result userid chanid) ++ tail; p = 9; end = 15 },
    rw (refused),
  )
]

mcs_recv_cjcf-Answered :
    (net : Net) (result userid chanid : ℕ) (rest : List ℕ)
    → avail net.incoming ≡ frame (cjcf result userid chanid) ++ rest
    → Healthy net.outgoing
    → Answered net [] rest (result == 0) (mcs_recv_cjcf net)
unfolding mcs_recv_cjcf expect answer
mcs_recv_cjcf-Answered net result userid chanid rest e ok =
    let (es, tail, got, left) =
      iso_recv-frame false net (cjcf result userid chanid) rest e (omega arith) in
    let (s', parsed) = in_cjcf_lem net.g_in result userid chanid tail in
    record {
      net' = record net { g_in = s'; incoming = es };
      result = rw (got, parsed);
      wire = sym (append-nil net.wire);
      healthy = ok;
      unread = left;
    }

-- One channel: the request goes out, and the result is that of the confirmation.
join-Answered :
    (net : Net) (userid chanid result : ℕ) (rest : List ℕ)
    → avail net.incoming ≡ frame (cjcf result userid chanid) ++ rest
    → Healthy net.outgoing
    → Answered net
        (frame (map byte (cjrq userid (chanid % 2 ^ 16))))
        rest
        (result == 0)
        (join userid chanid net)
unfolding join mcs_send_cjrq
join-Answered net userid chanid result rest e ok =
    let sent = iso_packet-Sent net (out_cjrq-Writes userid (chanid % 2 ^ 16)) (omega arith) ok in
    let back =
      mcs_recv_cjcf-Answered sent.net' result userid chanid rest (ap avail sent.incoming ∙ e)
        sent.healthy in
    record {
      net' = back.net';
      result = ap (λ r. Link.bind r (λ _. mcs_recv_cjcf)) sent.result ∙ back.result;
      wire = back.wire ∙ append-nil sent.net'.wire ∙ sent.wire;
      healthy = back.healthy;
      unread = back.unread;
    }

-- The server's answer to each channel: the channel and the result that it sends for it.
abbrev pub Answers : Type 0
Answers = List (ℕ × ℕ)

unfoldable pub channel_ids : Answers → List ℕ
channel_ids [] = []
channel_ids ((c, r) ∷ cs) = c ∷ channel_ids cs

-- The confirmations as they come over the wire.
unfoldable pub confirmations : ℕ → Answers → List ℕ
confirmations userid [] = []
confirmations userid ((c, r) ∷ cs) = frame (cjcf r userid c) ++ confirmations userid cs

-- The loop asks for channels up to the first that is refused.
unfoldable pub asked : ℕ → Answers → List ℕ
asked userid [] = []
asked userid ((c, r) ∷ cs) =
    frame (map byte (cjrq userid (c % 2 ^ 16))) ++ (if r == 0 then asked userid cs else [])

-- What of the answers it leaves unread.
unfoldable pub unanswered : ℕ → Answers → List ℕ
unanswered userid [] = []
unanswered userid ((c, r) ∷ cs) = if r == 0 then unanswered userid cs else confirmations userid cs

unfoldable pub all_granted : Answers → Bool
all_granted [] = true
all_granted ((c, r) ∷ cs) = r == 0 && all_granted cs

-- For any answers of the server, each a confirmation with some result, the loop over the virtual
-- channels sends a request for each in order up to the first that is refused, reads one
-- confirmation for each, and succeeds if none is refused.
pub join_all-Answered :
    (cs : Answers) (net : Net) (userid : ℕ) (rest : List ℕ)
    → avail net.incoming ≡ confirmations userid cs ++ rest
    → Healthy net.outgoing
    → Answered net
        (asked userid cs)
        (unanswered userid cs ++ rest)
        (all_granted cs)
        (join_all userid (channel_ids cs) net)
unfolding join_all channel_ids confirmations asked unanswered all_granted
join_all-Answered [] net userid rest e ok = record {
  net' = net;
  result = refl;
  wire = sym (append-nil net.wire);
  healthy = ok;
  unread = e;
}
join_all-Answered ((c, r) ∷ cs) net userid rest e ok =
    let packet : List ℕ = frame (map byte (cjrq userid (c % 2 ^ 16))) in
    let one =
      join-Answered net userid c r (confirmations userid cs ++ rest)
        (e ∙ append_assoc (frame (cjcf r userid c)) (confirmations userid cs) rest) ok in
    let more = join_all-Answered cs one.net' userid rest one.unread one.healthy in
    elim (Bool-cases (r == 0)) [
      | inl granted ↦ record {
        net' = more.net';
        result = rw (one.result, granted) more.result;
        wire = rw granted (
            more.wire
            ∙ ap (λ w. w ++ asked userid cs) one.wire
            ∙ append_assoc net.wire packet (asked userid cs));
        healthy = more.healthy;
        unread = rw granted more.unread;
      }
      | inr refused ↦ record {
        net' = one.net';
        result = rw (one.result, refused);
        wire = rw refused (one.wire ∙ ap (λ p. net.wire ++ p) (sym (append-nil packet)));
        healthy = one.healthy;
        unread = rw refused one.unread;
      }
    ]
