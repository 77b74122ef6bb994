-- ===== src/Iso/Tests.antt =====
-- Runs of the ISO layer.
use rdesktopce_rdp.Prelude.{ℕ, ◌≡◌, refl, arith, List, [], ◌∷◌, ◌++◌, true, false, some, Option}
use rdesktopce_rdp.Samples.{link}
use rdesktopce_rdp.Stream.{out_uint8}
use rdesktopce_rdp.Stream.Emit.{one}
use rdesktopce_rdp.Tcp.{Incoming, got, again}
use rdesktopce_rdp.Tcp.Recv.{avail}
use rdesktopce_rdp.Iso.{iso_recv}
use rdesktopce_rdp.Iso.Connect.{Attempt, iso_connect}
use rdesktopce_rdp.Iso.Negotiate.{Agreed, iso_connect-Agreed}
use rdesktopce_rdp.Iso.Frame.{frame, Sent, iso_packet, iso_packet-Sent}
use rdesktopce_rdp.Iso.Recv.{iso_recv-frame}

-- A DT packet that carries 42, cut into two chunks, and an octet behind it.
abbrev arriving : List Incoming
arriving = got 3 (0 ∷ 0 ∷ 8 ∷ 2 ∷ []) ∷ again ∷ got 0xf0 (0x80 ∷ 42 ∷ 9 ∷ []) ∷ []

iso_recv-frame_example :
    (es : List Incoming) × (tail : List ℕ) × (iso_recv true (link arriving)
      ≡ some (
        some 3,
        record (link arriving) {
          incoming = es;
          g_in = record (link arriving).g_in { bytes = frame (42 ∷ []) ++ tail; p = 7; end = 8 };
        },
      ))
    × (avail es ≡ 9 ∷ [])
unfolding avail
iso_recv-frame_example = iso_recv-frame true (link arriving) (42 ∷ []) (9 ∷ []) refl (omega arith)

iso_packet-Sent_example : Sent (link []) (frame (42 ∷ [])) (iso_packet 1 (out_uint8 42) (link []))
iso_packet-Sent_example = iso_packet-Sent (link []) (one 42) (omega arith) tt

-- A server that refuses to negotiate, and then confirms a plain connection.
abbrev tries : List (Option Attempt)
tries =
    some (record {
      incoming =
          got 3 (0 ∷ 0 ∷ 19 ∷ 14 ∷ 0xd0 ∷ 0 ∷ 0 ∷ 0 ∷ 0 ∷ 0 ∷ 3 ∷ 0 ∷ 8 ∷ 0 ∷ 5 ∷ 0 ∷ 0 ∷ 0 ∷ [])
          ∷ [];
      outgoing = [];
      tls = true;
    })
    ∷ some (record {
      incoming = got 3 (0 ∷ 0 ∷ 11 ∷ 6 ∷ 0xd0 ∷ 0 ∷ 0 ∷ 0 ∷ 0 ∷ 0 ∷ []) ∷ [];
      outgoing = [];
      tls = true;
    })
    ∷ []

iso_connect-Agreed_example : Agreed true (iso_connect true false (97 ∷ []) true tries (link []))
iso_connect-Agreed_example = iso_connect-Agreed true false (97 ∷ []) true tries (link [])
