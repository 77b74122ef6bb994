-- ===== src/Iso/Recv.antt =====
-- `iso_recv_msg` and `iso_recv`: what they make of a TPKT packet.
use rdesktopce_rdp.Prelude.{
  ℕ, Option, Bool, true, false, suc, ◌+◌, ◌-◌, ◌*◌, ◌/◌, ◌^◌, ◌<◌, ◌≡◌, refl, ap, subst, ◌∙◌, some,
  List, ◌∷◌, ◌++◌, arith, length, take, drop, length-append, take-append, drop-append, ◌==◌,
  if◌then◌else◌, ltb, ◌&&◌,
}
use rdesktopce_rdp.Stream.{Stream, at, byte, in_uint8, in_uint8s}
use rdesktopce_rdp.Stream.Read.{in_uint16_be_lem}
use rdesktopce_rdp.Tcp.{Net, Incoming, tcp_recv, tcp_recv_new}
use rdesktopce_rdp.Tcp.Recv.{avail, tcp_recv-Appended, tcp_recv_new-Appended}
use rdesktopce_rdp.Iso.{iso_recv_msg, iso_recv, pdu_dt}
use rdesktopce_rdp.Iso.Wire.{in_header, in_code}
use rdesktopce_rdp.Iso.Frame.{tpkt, frame}

in_header-tpkt :
    (s : Stream) (a b : ℕ) (tail : List ℕ)
    → a < 256
    → b < 256
    → in_header (at s (3 ∷ 0 ∷ a ∷ b ∷ tail) 0)
      ≡ some ((3, a * 256 + b), at s (3 ∷ 0 ∷ a ∷ b ∷ tail) 4)
unfolding in_header in_uint8 in_uint8s
in_header-tpkt s a b tail ha hb =
    rw (in_uint16_be_lem (at s (3 ∷ 0 ∷ a ∷ b ∷ tail) 2) a b (refl, (refl, tt)) ha hb)

-- Where a packet's contents begin.
abbrev pub start : ℕ → ℕ
start code = if code == pdu_dt then 7 else 11

in_code_lem :
    (s : Stream) (a b c d h code : ℕ) (tail : List ℕ)
    → in_code (at s (a ∷ b ∷ c ∷ d ∷ h ∷ code ∷ tail) 4)
      ≡ some (code, at s (a ∷ b ∷ c ∷ d ∷ h ∷ code ∷ tail) (start code))
unfolding in_code in_uint8 in_uint8s
in_code_lem s a b c d h code tail = ground arith

-- A stream that holds a whole TPKT packet, at its contents; what follows it is still unread.
pub record Packet (net : Net) (code p : ℕ) (body rest : List ℕ) (r : Option (Option (ℕ × ℕ) × Net))
    : Type 0 where
  pub es : List Incoming
  pub tail : List ℕ
  pub result :
      r
      ≡ some (
        some (code, 3),
        record net {
          incoming = es;
          g_in = record net.g_in {
            bytes = tpkt (length body + 4) ++ (body ++ tail);
            p = p;
            end = length body + 4;
          };
        },
      )
  pub unread : avail es ≡ rest

module _ (net : Net) (h code : ℕ) (more rest : List ℕ) where
  pub iso_recv_msg-Packet :
      (c : ℕ)
      → avail net.incoming ≡ tpkt (length (h ∷ code ∷ more) + 4) ++ ((h ∷ code ∷ more) ++ rest)
      → length (h ∷ code ∷ more) + 4 < 2 ^ 16
      → Packet net code (start code) (h ∷ code ∷ more) rest (iso_recv_msg c net)
  unfolding iso_recv_msg
  iso_recv_msg-Packet c e small =
      let n : ℕ = length (h ∷ code ∷ more) + 4 in
      let first = tcp_recv_new-Appended 4 net (rw e (omega arith)) in
      let left : avail first.es ≡ (h ∷ code ∷ more) ++ rest = first.rest ∙ ap (drop 4) e in
      let holds = λ (p end : ℕ) (bs : List ℕ) (es : List Incoming). record net {
        incoming = es;
        g_in = record net.g_in { bytes = bs; p = p; end = end };
      } in
      let net₁ = holds 4 4 (tpkt n ++ first.tail) first.es in
      let second =
        tcp_recv-Appended (n - 4) net₁ (omega arith)
          (rw left (omega (arith, length-append (h ∷ code ∷ more) rest))) in
      let result₁ : tcp_recv_new 4 net ≡ some (true, holds 0 4 (tpkt n ++ first.tail) first.es) =
        subst (λ x. tcp_recv_new 4 net ≡ some (true, holds 0 4 (x ++ first.tail) first.es))
          (ap (take 4) e) first.result in
      let result₂ : tcp_recv (n - 4) net₁
          ≡ some (
            true,
            holds 4 (4 + (n - 4)) (tpkt n ++ ((h ∷ code ∷ more) ++ second.tail)) second.es,
          ) =
        subst
          (λ x.
            tcp_recv (n - 4) net₁
            ≡ some (true, holds 4 (4 + (n - 4)) (tpkt n ++ (x ++ second.tail)) second.es))
          (ap (take (n - 4)) left ∙ take-append (h ∷ code ∷ more) rest (n - 4) (omega arith))
          second.result in
      let len_lem : byte (n / 256) * 256 + byte n ≡ n = omega arith in
      let long : ltb n 4 ≡ false = ground arith in
      let end_lem : 4 + (n - 4) ≡ n = omega arith in
      record {
        es = second.es;
        tail = second.tail;
        result = rw (
          result₁,
          in_header-tpkt net₁.g_in (byte (n / 256)) (byte n) first.tail (omega arith) (omega arith),
          len_lem,
          long,
          result₂,
          in_code_lem (record net₁.g_in { end = 4 + (n - 4) }) 3 0 (byte (n / 256)) (byte n) h code
              (more ++ second.tail),
          end_lem,
        );
        unread =
            second.rest
            ∙ ap (drop (n - 4)) left
            ∙ drop-append (h ∷ code ∷ more) rest (n - 4) (omega arith);
      }

pub and_false : (b : Bool) → (b && false) ≡ false
and_false true = refl
and_false false = refl

-- `iso_recv` on a DT packet gives its stream, at the payload, with the end behind it, however the
-- packet is cut into chunks, and leaves the rest unread.
pub iso_recv-frame :
    (with_rdpver : Bool) (net : Net) (payload rest : List ℕ)
    → avail net.incoming ≡ frame payload ++ rest
    → length payload + 7 < 2 ^ 16
    → (es : List Incoming) × (tail : List ℕ) × (iso_recv with_rdpver net
        ≡ some (
          some 3,
          record net {
            incoming = es;
            g_in = record net.g_in {
              bytes = frame payload ++ tail;
              p = 7;
              end = length payload + 7;
            };
          },
        ))
      × (avail es ≡ rest)
unfolding iso_recv
iso_recv-frame with_rdpver net payload rest e h =
    let n_lem : length payload + 7 ≡ suc (suc (suc (length payload))) + 4 = omega arith in
    let packet =
      iso_recv_msg-Packet net 2 0xf0 (0x80 ∷ payload) rest 0
        (e ∙ ap (λ n. tpkt n ++ (2 ∷ 0xf0 ∷ 0x80 ∷ (payload ++ rest))) n_lem) (omega arith) in
    (packet.es, packet.tail, rw (packet.result, and_false with_rdpver, n_lem), packet.unread)
