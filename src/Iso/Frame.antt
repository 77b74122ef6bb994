-- ===== src/Iso/Frame.antt =====
-- `iso_init` and `iso_send`: the frame around a payload.
use rdesktopce_rdp.Prelude.{
  ℕ, Option, ◌+◌, ◌-◌, ◌/◌, ◌%◌, ◌^◌, ◌≤◌, ◌<◌, ◌≡◌, refl, sym, ap, some, List, [], ◌∷◌, ◌++◌, map,
  arith, length, take, drop, replicate, length-append, length-map, take-append, take-append-drop,
  length-take, length-drop, length-replicate,
}
use rdesktopce_rdp.Stream
use rdesktopce_rdp.Stream.{
  Stream, at, byte, out_uint8, out_uint16_be, out_uint8p, s_mark_end, push_iso, pop_iso,
}
use rdesktopce_rdp.Stream.Emit.{Writes, join, one, u16_be, emit}
use rdesktopce_rdp.Tcp.{Net, tcp_init, grow}
use rdesktopce_rdp.Tcp.Send.{Healthy, tcp_send_lem}
use rdesktopce_rdp.Link.{N, ◌>>◌, on_out, send}
use rdesktopce_rdp.Iso.{iso_init, iso_send}
use rdesktopce_rdp.Iso.Wire.{out_header, out_data, rest_length}

-- A TPKT header for `len` octets in all.
abbrev pub tpkt : ℕ → List ℕ
tpkt len = 3 ∷ 0 ∷ byte (len / 256) ∷ byte len ∷ []

-- The DT packet that carries a payload.
abbrev pub frame : List ℕ → List ℕ
frame payload = tpkt (length payload + 7) ++ (2 ∷ 0xf0 ∷ 0x80 ∷ payload)

out_data-Writes : (n : ℕ) → Writes (out_data n) (3 ∷ 0 ∷ n / 256 ∷ n ∷ 2 ∷ 0xf0 ∷ 0x80 ∷ [])
unfolding out_data
out_data-Writes n =
    join (one 3) (join (one 0) (join (u16_be n) (join (one 2) (join (one 0xf0) (one 0x80)))))

-- Seven octets of room, the payload behind them, and what is left of the buffer.
abbrev pub laid : Stream → List ℕ → List ℕ → List ℕ → Stream
laid s room payload post = record s {
  bytes = room ++ (payload ++ post);
  iso_hdr = 0;
  end = length payload + 7;
}

abbrev framed : Stream → List ℕ → List ℕ → Stream
framed s payload post = record s {
  bytes = frame payload ++ post;
  p = 7;
  iso_hdr = 0;
  end = length payload + 7;
}

out_header_lem :
    (s : Stream) (room payload post : List ℕ)
    → length room ≡ 7
    → length payload + 7 < 2 ^ 16
    → out_header (laid s room payload post) ≡ some (tt, framed s payload post)
unfolding out_header pop_iso rest_length
out_header_lem s room payload post seven h =
    let n : ℕ = length payload + 7 in
    let n_lem : (n + 2 ^ 16 - 0 % 2 ^ 16) % 2 ^ 16 ≡ n = omega arith in
    rw (n_lem)
      (emit (laid s room payload post) [] room (payload ++ post) 0 (out_data-Writes n) refl seven)

-- What `iso_send` leaves: the frame goes on the wire, and the socket stays healthy.
pub record Sent (net : Net) (packet : List ℕ) (r : Option (Unit {0} × Net)) : Type 0 where
  pub net' : Net
  pub result : r ≡ some (tt, net')
  pub wire : net'.wire ≡ net.wire ++ packet
  pub healthy : Healthy net'.outgoing
  pub incoming : net'.incoming ≡ net.incoming

pub iso_send-frame :
    (net : Net) (s : Stream) (room payload post : List ℕ)
    → net.g_out ≡ laid s room payload post
    → length room ≡ 7
    → length payload + 7 < 2 ^ 16
    → Healthy net.outgoing
    → Sent net (frame payload) (iso_send net)
unfolding iso_send
iso_send-frame net s room payload post laid_out seven h ok =
    let out : Stream = framed s payload post in
    let (es, sent, keep) = tcp_send_lem (record net { g_out = out }) ok in
    record {
      net' = record net {
        g_out = out;
        outgoing = es;
        wire = net.wire ++ take (length payload + 7) (frame payload ++ post);
      };
      result =
          rw (laid_out, out_header_lem s room payload post seven h, send)
            (ap (λ r. some (tt, r)) sent);
      wire =
          ap (λ w. net.wire ++ w)
            (take-append (frame payload) post (length payload + 7) (omega arith));
      healthy = keep;
      incoming = refl;
    }

-- Seven octets, a body of `n`, and the rest of a buffer that is large enough.
record Cut (d : List ℕ) (n : ℕ) : Type 0 where
  room : List ℕ
  old : List ℕ
  post : List ℕ
  parts : d ≡ room ++ (old ++ post)
  seven : length room ≡ 7
  body : length old ≡ n

cut : (d : List ℕ) (n : ℕ) → n + 7 ≤ length d → Cut d n
cut d n h = record {
  room = take 7 d;
  old = take n (drop 7 d);
  post = drop n (drop 7 d);
  parts = rw (take-append-drop n (drop 7 d), take-append-drop 7 d);
  seven = omega (arith, length-take 7 d);
  body = omega (arith, length-take n (drop 7 d), length-drop 7 d);
}

-- What a layer above writes: room for the headers, a body, the end of the packet, and `iso_send`.
abbrev pub iso_packet : ℕ → Stream.M (Unit {0}) → N (Unit {0})
iso_packet n body = do iso_init n; on_out body; on_out s_mark_end; iso_send

grow-length : (n : ℕ) (d : List ℕ) → n ≤ length (grow n d)
unfolding grow
grow-length n d = omega (
  arith,
  length-append d (replicate (n - length d) 0),
  length-replicate (n - length d) (let z : ℕ = 0 in z),
)

-- What a layer writes between `iso_init` and `iso_send` goes out as one TPKT frame with its
-- length, for a payload below 64 KB and a healthy socket.
pub iso_packet-Sent :
    {m : Stream.M (Unit {0})} {bs : List ℕ} (net : Net)
    → Writes m bs
    → length bs + 7 < 2 ^ 16
    → Healthy net.outgoing
    → Sent net (frame (map byte bs)) (iso_packet (length bs) m net)
unfolding iso_init push_iso s_mark_end tcp_init
iso_packet-Sent {m} {bs} net w h ok =
    let n : ℕ = length bs in
    let c = cut (grow (n + 7) net.g_out.bytes) n (grow-length (n + 7) net.g_out.bytes) in
    let s : Stream = record net.g_out { end = length (c.room ++ (c.old ++ c.post)); iso_hdr = 0 } in
    let out : Stream = record s {
      bytes = c.room ++ (map byte bs ++ c.post);
      p = 7 + n;
      end = 7 + n;
    } in
    let ends : 7 + n ≡ length (map byte bs) + 7 = omega (arith, length-map byte bs) in
    let sent =
      iso_send-frame (record net { g_out = out }) out c.room (map byte bs) c.post
        (ap (λ e. record out { end = e }) ends) c.seven (omega (arith, length-map byte bs)) ok in
    record {
      net' = sent.net';
      result = rw (c.parts, emit s c.room c.old c.post 7 w (sym c.seven) c.body) sent.result;
      wire = sent.wire;
      healthy = sent.healthy;
      incoming = sent.incoming;
    }
