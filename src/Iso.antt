-- ===== src/Iso.antt =====
-- source/iso.c: TPKT and X.224 framing over the transport.
mod Wire
pub mod Frame
pub mod Keeps
pub mod Recv
pub mod Connect
pub mod Negotiate
mod Tests
use Wire.{out_msg, out_request, out_header, in_header, in_code}
use rdesktopce_rdp.Prelude.{
  ℕ, ◌+◌, ◌-◌, Bool, true, false, Option, none, some, List, [], ◌∷◌, ltb, ◌==◌, ◌&&◌, not,
  if◌then◌else◌, length,
}
use rdesktopce_rdp.Stream.{push_iso}
use rdesktopce_rdp.Tcp.{Net, tcp_recv, tcp_recv_new, tcp_disconnect}
use rdesktopce_rdp.Link.{N, pure, ◌>>=◌, ◌>>◌, on_out, on_in, init, send}

abbrev pub pdu_dt : ℕ
pdu_dt = 0xf0

unfoldable pub iso_send_msg : ℕ → N (Unit {0})
iso_send_msg code = do init 11; on_out (out_msg code); send

-- `negotiate` is `g_rdp_version >= RDP_V5 && g_negotiate_rdp_protocol`.
unfoldable pub iso_send_connection_request : Bool → List ℕ → N (Unit {0})
iso_send_connection_request negotiate username =
    let len = 30 + length username + (if negotiate then 8 else 0) in
    do init len; on_out (out_request negotiate username len); send

-- What a caller gets of `iso_recv_msg`: NULL, or the stream with `*code` and the version.
-- `*code` keeps its value `code` where the source does not assign it.
unfoldable pub iso_recv_msg : ℕ → N (Option (ℕ × ℕ))
iso_recv_msg code = do
  done ← tcp_recv_new 4
  if not done then pure none else do
    (version, len) ← on_in in_header
    if ltb len 4 then pure none else do
      more ← tcp_recv (len - 4)
      if not more
          then pure none
          else (if version == 3
              then (do c ← on_in in_code; pure (some (c, version)))
              else pure (some (code, version)))

unfoldable pub iso_init : ℕ → N (Unit {0})
iso_init n = do init (n + 7); on_out (push_iso 7)

unfoldable pub iso_send : N (Unit {0})
iso_send = do on_out out_header; send

-- The rest of `iso_recv`: NULL, or the stream with `*rdpver`. `with_rdpver` is `rdpver != NULL`.
unfoldable pub deliver : Bool → Option (ℕ × ℕ) → Option ℕ
deliver with_rdpver none = none
deliver with_rdpver (some (code, version)) =
    if with_rdpver && not (version == 3)
    then some version
    else if code == pdu_dt
    then some version
    else none

unfoldable pub iso_recv : Bool → N (Option ℕ)
unfolding deliver
iso_recv with_rdpver = do msg ← iso_recv_msg 0; pure (deliver with_rdpver msg)

unfoldable pub iso_disconnect : N (Unit {0})
unfolding iso_send_msg
iso_disconnect = do iso_send_msg 0x80; (λ net. some (tt, tcp_disconnect net))
