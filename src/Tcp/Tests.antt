-- ===== src/Tcp/Tests.antt =====
-- Runs of the transport.
use rdesktopce_rdp.Prelude.{ℕ, ◌≡◌, arith, List, [], ◌∷◌, ◌++◌, take}
use rdesktopce_rdp.Samples.{link}
use rdesktopce_rdp.Tcp.{
  Net, Incoming, got, again, Outgoing, took, failed, tcp_recv, tcp_recv_new, send_loop, tcp_send,
}
use rdesktopce_rdp.Tcp.Recv.{avail, Appended, tcp_recv-Appended, tcp_recv_new-Appended}
use rdesktopce_rdp.Tcp.Send.{Healthy, send_loop-prefix, tcp_send_lem}

-- Five octets in two chunks.
abbrev chunks : List Incoming
chunks = got 1 (2 ∷ []) ∷ again ∷ got 3 (4 ∷ 5 ∷ []) ∷ []

tcp_recv_new-Appended_example : Appended (link chunks) 0 0 4 (tcp_recv_new 4 (link chunks))
unfolding avail
tcp_recv_new-Appended_example = tcp_recv_new-Appended 4 (link chunks) (omega arith)

tcp_recv-Appended_example : Appended (link chunks) 0 0 3 (tcp_recv 3 (link chunks))
unfolding avail
tcp_recv-Appended_example = tcp_recv-Appended 3 (link chunks) (omega arith) (omega arith)

abbrev packet : Net
packet = record (link []) { g_out = record (link []).g_out { bytes = 7 ∷ 8 ∷ 9 ∷ 0 ∷ []; end = 3 } }

tcp_send_lem_example :
    (es : List Outgoing) × (tcp_send packet
      ≡ record packet { outgoing = es; wire = 7 ∷ 8 ∷ 9 ∷ [] })
    × Healthy es
tcp_send_lem_example = tcp_send_lem packet tt

send_loop-prefix_example :
    (k : ℕ) × ((send_loop (took 0 ∷ failed ∷ []) (7 ∷ 8 ∷ []) []).2 ≡ [] ++ take k (7 ∷ 8 ∷ []))
send_loop-prefix_example = send_loop-prefix (took 0 ∷ failed ∷ []) (7 ∷ 8 ∷ []) []
