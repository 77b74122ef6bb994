-- ===== src/Mcs/Tests.antt =====
-- Runs of the MCS layer.
use rdesktopce_rdp.Prelude.{
  ℕ, ◌≡◌, refl, arith, List, [], ◌∷◌, ◌++◌, true, none, some, length, ◌+◌, map, replicate,
}
use rdesktopce_rdp.Samples.{link, blank}
use rdesktopce_rdp.Stream
use rdesktopce_rdp.Stream.{Stream, byte}
use rdesktopce_rdp.Tcp.{Net, got}
use rdesktopce_rdp.Tcp.Recv.{avail}
use rdesktopce_rdp.Iso.Frame.{frame, Sent}
use rdesktopce_rdp.Mcs.{
  mcs_send_connect_initial, mcs_recv, channel_data, mcs_send_to_channel, mcs_connect_finalize,
  join_all,
}
use rdesktopce_rdp.Mcs.Ber.{ber_out_header, ber_parse_header}
use rdesktopce_rdp.Mcs.Ber.RoundTrip.{tag_octets, length_octets, ber_round_trip}
use rdesktopce_rdp.Mcs.Initial.{element, initial_content, mcs_send_connect_initial-Sent}
use rdesktopce_rdp.Mcs.Connect.{Ends, mcs_connect_finalize-Ends}
use rdesktopce_rdp.Mcs.Data.{
  sdin, per_length, sdrq_header, prepared, mcs_recv-sdin, mcs_send_to_channel-Sent,
}
use rdesktopce_rdp.Mcs.Join.{
  Answers, Answered, channel_ids, confirmations, asked, unanswered, all_granted, join_all-Answered,
}

abbrev header_stream : Stream
header_stream = record (blank (9 ∷ 0 ∷ 0 ∷ 0 ∷ 0 ∷ 0 ∷ 9 ∷ [])) { p = 1; end = 7 }

ber_round_trip_example :
    (t : Stream) × (ber_out_header 0x7f65 300 header_stream ≡ some (tt, t))
    × (ber_parse_header 0x7f65 none (record t { p = 1 }) ≡ some ((true, some 300), t))
unfolding tag_octets length_octets
ber_round_trip_example =
    ber_round_trip header_stream 0x7f65 300 (9 ∷ []) (0 ∷ 0 ∷ 0 ∷ 0 ∷ 0 ∷ []) (9 ∷ []) none
      (omega arith) (omega arith) refl refl refl (omega arith)

-- GCC data of 130 octets.
abbrev gcc : List ℕ
gcc = replicate 130 7

mcs_send_connect_initial-Sent_example :
    Sent
      (link [])
      (frame (element 0x7f65 (initial_content (map byte gcc))))
      (mcs_send_connect_initial gcc (link []))
mcs_send_connect_initial-Sent_example =
    mcs_send_connect_initial-Sent (link []) gcc (omega arith) (omega arith) tt

-- The server grants the channel 1004 and refuses 1005.
abbrev answers : Answers
answers = (1004, 0) ∷ (1005, 1) ∷ []

abbrev granting : Net
granting = link (
    got 3 (0 ∷ 0 ∷ 15 ∷ 2 ∷ 0xf0 ∷ 0x80 ∷ 62 ∷ 0 ∷ 0 ∷ 5 ∷ 3 ∷ 236 ∷ 3 ∷ 236 ∷ [])
    ∷ got 3 (0 ∷ 0 ∷ 15 ∷ 2 ∷ 0xf0 ∷ 0x80 ∷ 62 ∷ 1 ∷ 0 ∷ 5 ∷ 3 ∷ 237 ∷ 3 ∷ 237 ∷ [])
    ∷ [])

join_all-Answered_example :
    Answered granting
      (asked 5 answers)
      (unanswered 5 answers ++ [])
      (all_granted answers)
      (join_all 5 (channel_ids answers) granting)
unfolding avail confirmations
join_all-Answered_example = join_all-Answered answers granting 5 [] refl tt

-- A server that closes the connection at once.
mcs_connect_finalize-Ends_example :
    Ends (link []) (mcs_connect_finalize (Stream.pure tt) (1 ∷ 2 ∷ []) (1004 ∷ []) 0 (link []))
mcs_connect_finalize-Ends_example =
    mcs_connect_finalize-Ends (Stream.pure tt) (1 ∷ 2 ∷ []) (1004 ∷ []) 0 (link [])

abbrev indicating : Net
indicating =
    link
      (got 3 (0 ∷ 0 ∷ 16 ∷ 2 ∷ 0xf0 ∷ 0x80 ∷ 104 ∷ 0 ∷ 5 ∷ 3 ∷ 235 ∷ 0x70 ∷ 2 ∷ 42 ∷ 43 ∷ []) ∷ [])

mcs_recv-sdin_example :
    (net' : Net) × (tail : List ℕ) × (mcs_recv true indicating ≡ some (channel_data 1003, net'))
    × (net'.g_in.bytes ≡ frame (sdin 5 1003 (42 ∷ 43 ∷ [])) ++ tail)
    × (net'.g_in.p ≡ 13 + length (per_length 2))
    × (net'.g_in.end ≡ net'.g_in.p + 2)
    × (avail net'.incoming ≡ [])
unfolding avail
mcs_recv-sdin_example =
    mcs_recv-sdin true indicating 5 1003 (42 ∷ 43 ∷ []) [] (omega arith) (omega arith) refl

abbrev asking : Net
asking = record (link []) {
  g_out = prepared (blank []) (replicate 7 0) (replicate 8 0) (42 ∷ 43 ∷ []) (0 ∷ []);
}

mcs_send_to_channel-Sent_example :
    Sent asking
      (frame (map byte (sdrq_header 5 1003 2) ++ (42 ∷ 43 ∷ [])))
      (mcs_send_to_channel 5 1003 asking)
mcs_send_to_channel-Sent_example =
    mcs_send_to_channel-Sent asking (blank []) (replicate 7 0) (replicate 8 0) (42 ∷ 43 ∷ [])
      (0 ∷ []) 5 1003 refl refl refl (omega arith) tt
