-- ===== src/Mcs/Data.antt =====
-- Data to and from a channel.
use rdesktopce_rdp.Prelude.{
  ℕ, ◌+◌, ◌-◌, ◌*◌, ◌/◌, ◌%◌, ◌^◌, ◌≤◌, ◌<◌, ◌≡◌, refl, sym, ◌∙◌, Bool, some, List, [], ◌∷◌, ◌++◌,
  map, arith, length, length-append, if◌then◌else◌, leb, append_assoc, Bool-cases, inl, inr,
  bit_and,
}
use rdesktopce_rdp.Prelude.Bits.{top_bit, bit_or_high}
use rdesktopce_rdp.Stream.{Stream, at, byte, in_uint8, in_uint8s, in_uint16_be, next_be, pop_mcs}
use rdesktopce_rdp.Stream.Emit.{emit}
use rdesktopce_rdp.Tcp.{Net}
use rdesktopce_rdp.Tcp.Recv.{avail}
use rdesktopce_rdp.Tcp.Send.{Healthy}
use rdesktopce_rdp.Iso.{iso_send}
use rdesktopce_rdp.Iso.Frame.{frame, iso_send-frame, Sent}
use rdesktopce_rdp.Iso.Recv.{iso_recv-frame, and_false}
use rdesktopce_rdp.Mcs.Pdu.{in_sdin, sdrq_length}
use rdesktopce_rdp.Mcs.Bodies.{out_sdrq-Writes}
use rdesktopce_rdp.Mcs.{mcs_send_to_channel, mcs_recv, channel_data}

-- A PER length: one octet, or two with the top bit of the first set.
abbrev pub per_length : ℕ → List ℕ
per_length n = if leb 0x80 n then (0x80 + n / 256) ∷ byte n ∷ [] else n ∷ []

-- A data indication for a channel.
abbrev pub sdin : ℕ → ℕ → List ℕ → List ℕ
sdin userid channel octets =
    104
    ∷ byte (userid / 256)
    ∷ byte userid
    ∷ byte (channel / 256)
    ∷ byte channel
    ∷ 0x70
    ∷ (per_length (length octets) ++ octets)

per_length-le : (n : ℕ) → length (per_length n) ≤ 2
per_length-le n = ground arith

in_sdin_lem :
    (s : Stream) (userid channel : ℕ) (octets tail : List ℕ)
    → channel < 2 ^ 16
    → length octets < 2 ^ 15
    → in_sdin (at s (frame (sdin userid channel octets) ++ tail) 7)
      ≡ some (
        some channel,
        at s
            (frame (sdin userid channel octets) ++ tail)
            (13 + length (per_length (length octets))),
      )
unfolding in_sdin in_uint8 in_uint8s in_uint16_be next_be
in_sdin_lem s userid channel octets tail hc hn =
    let n : ℕ = length octets in
    let channel_lem : (byte (channel / 256) * 256 + byte channel) % 2 ^ 16 ≡ channel =
      omega arith in
    elim (Bool-cases (leb 0x80 n)) [
      | inl long ↦
          let top : bit_and (0x80 + n / 256) 0x80 ≡ 128 =
            ground (arith, top_bit (0x80 + n / 256)) in
          rw (long, channel_lem, top)
      | inr short ↦
          let top : bit_and n 0x80 ≡ 0 = ground (arith, top_bit n) in rw (short, channel_lem, top)
    ]

-- `mcs_recv` on a data indication for a channel gives the channel and a stream at the data, of up
-- to 32 KB, for both forms of its length, and leaves unread what the peer sent behind it.
pub mcs_recv-sdin :
    (with_rdpver : Bool) (net : Net) (userid channel : ℕ) (octets rest : List ℕ)
    → channel < 2 ^ 16
    → length octets < 2 ^ 15
    → avail net.incoming ≡ frame (sdin userid channel octets) ++ rest
    → (net' : Net) × (tail : List ℕ) × (mcs_recv with_rdpver net
        ≡ some (channel_data channel, net'))
      × (net'.g_in.bytes ≡ frame (sdin userid channel octets) ++ tail)
      × (net'.g_in.p ≡ 13 + length (per_length (length octets)))
      × (net'.g_in.end ≡ net'.g_in.p + length octets)
      × (avail net'.incoming ≡ rest)
unfolding mcs_recv
mcs_recv-sdin with_rdpver net userid channel octets rest hc hn e =
    let payload : List ℕ = sdin userid channel octets in
    let n : ℕ = length octets in
    let sizes = length-append (per_length n) octets in
    let (es, tail, got, left) =
      iso_recv-frame with_rdpver net payload rest e (omega (arith, sizes, per_length-le n)) in
    let s : Stream = record net.g_in {
      bytes = frame payload ++ tail;
      p = 7;
      end = length payload + 7;
    } in
    (
      record net { incoming = es; g_in = record s { p = 13 + length (per_length n) } },
      tail,
      rw (got, and_false with_rdpver, in_sdin_lem s userid channel octets tail hc hn),
      refl,
      refl,
      omega (arith, sizes),
      left,
    )

-- The header of a send request.
abbrev pub sdrq_header : ℕ → ℕ → ℕ → List ℕ
sdrq_header userid channel n =
    100
    ∷ userid / 256
    ∷ userid
    ∷ channel / 256
    ∷ channel
    ∷ 0x70
    ∷ (n + 2 ^ 15) / 256
    ∷ (n + 2 ^ 15)
    ∷ []

-- The stream that `mcs_init` prepares, with `octets` written behind the headers and marked as end.
abbrev pub prepared : Stream → List ℕ → List ℕ → List ℕ → List ℕ → Stream
prepared s room header octets post = record s {
  bytes = room ++ (header ++ (octets ++ post));
  iso_hdr = 0;
  mcs_hdr = 7;
  end = length octets + 15;
}

module _ (net : Net) (s : Stream) (room header octets post : List ℕ) (userid channel : ℕ)
    (laid_out : net.g_out ≡ prepared s room header octets post) (h7 : length room ≡ 7)
    (h8 : length header ≡ 8) (hn : length octets < 2 ^ 15) where
  -- The header in its place, ready for the layer below.
  with_header : Stream
  with_header = record (prepared s room header octets post) {
    bytes = room ++ (map byte (sdrq_header userid channel (length octets)) ++ (octets ++ post));
    p = 15;
  }

  header-written :
      mcs_send_to_channel userid channel net ≡ iso_send (record net { g_out = with_header })
  unfolding mcs_send_to_channel pop_mcs sdrq_length with_header
  header-written =
      let n : ℕ = length octets in
      let n_lem : (n + 15 + 2 ^ 16 - (7 + 8) % 2 ^ 16) % 2 ^ 16 ≡ n = omega arith in
      rw (
        laid_out,
        n_lem,
        bit_or_high 15 n hn,
        emit (prepared s room header octets post) room header (octets ++ post) 7
            (out_sdrq-Writes userid channel (n + 2 ^ 15)) (sym h7) h8,
      )

  -- `mcs_send_to_channel` on a stream with its headers reserved puts one frame with a send request
  -- to the channel and up to 32 KB of octets on the wire of a healthy socket.
  pub mcs_send_to_channel-Sent :
      Healthy net.outgoing
      → Sent net
          (frame (map byte (sdrq_header userid channel (length octets)) ++ octets))
          (mcs_send_to_channel userid channel net)
  unfolding with_header
  mcs_send_to_channel-Sent ok =
      let hs : List ℕ = map byte (sdrq_header userid channel (length octets)) in
      let sizes = length-append hs octets in
      let parts = sym (append_assoc hs octets post) in
      let ends : length octets + 15 ≡ length (hs ++ octets) + 7 = omega (arith, sizes) in
      let sent =
        iso_send-frame (record net { g_out = with_header }) with_header room (hs ++ octets) post
          (λ i. record with_header { bytes = room ++ parts i; end = ends i }) h7
          (omega (arith, sizes)) ok in
      record {
        net' = sent.net';
        result = header-written ∙ sent.result;
        wire = sent.wire;
        healthy = sent.healthy;
        incoming = sent.incoming;
      }
