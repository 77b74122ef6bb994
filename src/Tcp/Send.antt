-- ===== src/Tcp/Send.antt =====
-- What the send loop delivers.
use rdesktopce_rdp.Prelude.{
  ℕ, suc, ◌+◌, ◌≡◌, refl, sym, ap, ◌∙◌, true, List, [], ◌∷◌, ◌++◌, arith, length, take, drop,
  append_assoc, append-nil, take-length, take-add, take-append-drop,
}
use rdesktopce_rdp.Tcp.{Outgoing, took, busy, failed, send_loop, tcp_send, Net}

-- No call of `send` reports an error.
abbrev pub Healthy : List Outgoing → Type 0
Healthy [] = Unit {0}
Healthy (took n ∷ es) = Healthy es
Healthy (busy ∷ es) = Healthy es
Healthy (failed ∷ es) = ⊥

-- However the socket cuts the packet, all of it goes out in order.
pub send_loop-all :
    (es : List Outgoing) (bs w : List ℕ)
    → Healthy es
    → (es' : List Outgoing) × (send_loop es bs w ≡ (true, es', w ++ bs)) × Healthy es'
unfolding send_loop
send_loop-all es [] w h = (es, ap (λ r. (true, es, r)) (sym (append-nil w)), h)
send_loop-all [] (b ∷ bs) w h = ([], refl, tt)
send_loop-all (took n ∷ es) (b ∷ bs) w h =
    let (es', loop, keep) = send_loop-all es (drop n bs) (w ++ (b ∷ take n bs)) h in
    (
      es',
      ground (arith, loop, append_assoc w (b ∷ take n bs) (drop n bs), take-append-drop n bs),
      keep,
    )
send_loop-all (busy ∷ es) (b ∷ bs) w h = send_loop-all es (b ∷ bs) w h
send_loop-all (failed ∷ es) (b ∷ bs) w h = absurd h

-- Whatever the socket does, the send loop puts a prefix of the packet on the wire, in order and
-- without a repetition.
pub send_loop-prefix :
    (es : List Outgoing) (bs w : List ℕ) → (k : ℕ) × ((send_loop es bs w).2 ≡ w ++ take k bs)
unfolding send_loop
send_loop-prefix es [] w = (0, sym (append-nil w))
send_loop-prefix [] (b ∷ bs) w = (suc (length bs), ap (λ r. w ++ (b ∷ r)) (sym (take-length bs)))
send_loop-prefix (took n ∷ es) (b ∷ bs) w =
    let (k, loop) = send_loop-prefix es (drop n bs) (w ++ (b ∷ take n bs)) in
    (
      suc (n + k),
      loop
          ∙ append_assoc w (b ∷ take n bs) (take k (drop n bs))
          ∙ ap (λ r. w ++ (b ∷ r)) (sym (take-add bs n k)),
    )
send_loop-prefix (busy ∷ es) (b ∷ bs) w = send_loop-prefix es (b ∷ bs) w
send_loop-prefix (failed ∷ es) (b ∷ bs) w = (0, sym (append-nil w))

-- `tcp_send` over a healthy socket puts the octets from `data` to `end` on the wire, in order.
pub tcp_send_lem :
    (net : Net)
    → Healthy net.outgoing
    → (es : List Outgoing) × (tcp_send net
        ≡ record net { outgoing = es; wire = net.wire ++ take net.g_out.end net.g_out.bytes })
      × Healthy es
unfolding tcp_send
tcp_send_lem net h =
    let (es, sent, keep) =
      send_loop-all net.outgoing (take net.g_out.end net.g_out.bytes) net.wire h in
    (es, rw sent, keep)
