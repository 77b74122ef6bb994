-- ===== src/Iso/Keeps.antt =====
-- What the messages of the ISO layer leave alone: the connection, and on the way in the wire.
use rdesktopce_rdp.Prelude.{
  arith, ℕ, ◌+◌, ◌-◌, Bool, false, ◌≡◌, refl, none, some, ltb, not, ◌==◌, List,
}
use rdesktopce_rdp.Stream.{Stream, push_iso}
use rdesktopce_rdp.Iso.Wire.{out_msg, out_header, in_header, in_code}
use rdesktopce_rdp.Tcp.{Net, Incoming, tcp_init, tcp_send, tcp_disconnect}
use rdesktopce_rdp.Link.{init, send}
use rdesktopce_rdp.Link.Keeps
use rdesktopce_rdp.Link.Keeps.{Keeps}
use rdesktopce_rdp.Iso.{
  iso_send_msg, iso_init, iso_send, iso_recv_msg, iso_recv, deliver, iso_disconnect,
}

abbrev pub connected : Net → Bool
connected net = net.connected

abbrev pub wire : Net → List ℕ
wire net = net.wire

pub init-Keeps : (n : ℕ) → Keeps connected (init n)
unfolding tcp_init
init-Keeps n = record { run = λ net. refl }

pub send-Keeps : Keeps connected send
unfolding tcp_send
send-Keeps = record { run = λ net. refl }

pub iso_init-Keeps : (n : ℕ) → Keeps connected (iso_init n)
unfolding iso_init
iso_init-Keeps n =
    Keeps.seq connected (init-Keeps (n + 7))
      (Keeps.on_out-Keeps connected (λ net s. refl) (push_iso 7))

pub iso_send-Keeps : Keeps connected iso_send
unfolding iso_send
iso_send-Keeps =
    Keeps.seq connected (Keeps.on_out-Keeps connected (λ net s. refl) out_header) send-Keeps

pub iso_send_msg-Keeps : (code : ℕ) → Keeps connected (iso_send_msg code)
unfolding iso_send_msg
iso_send_msg-Keeps code =
    Keeps.seq connected (init-Keeps 11)
      (Keeps.seq connected (Keeps.on_out-Keeps connected (λ net s. refl) (out_msg code)) send-Keeps)

-- A receive changes the incoming side only.
module _ {X : Type 0} (view : Net → X)
    (e : (net : Net) (es : List Incoming) (s : Stream)
      → view (record net { g_in = s; incoming = es }) ≡ view net) where
  pub on_in_lem : (net : Net) (s : Stream) → view (record net { g_in = s }) ≡ view net
  on_in_lem net s = e net net.incoming s

  pub iso_recv_msg-Keeps : (code : ℕ) → Keeps view (iso_recv_msg code)
  unfolding iso_recv_msg
  iso_recv_msg-Keeps code = Keeps.bind view (Keeps.tcp_recv_new-Keeps view e 4) λ done.
      Keeps.branch view (not done) (Keeps.unit view none) (
        Keeps.bind view (Keeps.on_in-Keeps view on_in_lem in_header) λ (version, len).
          Keeps.branch view (ltb len 4) (Keeps.unit view none) (
            Keeps.bind view (Keeps.tcp_recv-Keeps view e (len - 4)) λ more.
              Keeps.branch view (not more) (Keeps.unit view none) (
                Keeps.branch view (version == 3)
                  (Keeps.bind view {A = ℕ} (Keeps.on_in-Keeps view on_in_lem in_code)
                    λ c. Keeps.unit view (some (c, version)))
                  (Keeps.unit view (some (code, version))))))

  pub iso_recv-Keeps : (b : Bool) → Keeps view (iso_recv b)
  unfolding iso_recv
  iso_recv-Keeps b = Keeps.bind view (iso_recv_msg-Keeps 0) λ msg. Keeps.unit view (deliver b msg)

pub iso_disconnect-closes :
    (net net' : Net) → iso_disconnect net ≡ some (tt, net') → net'.connected ≡ false
unfolding iso_disconnect tcp_disconnect
iso_disconnect-closes net net' e = ground arith
