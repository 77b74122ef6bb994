-- ===== src/Channels/Send.antt =====
-- source/channels.c: the fragments of `channel_send`.
use rdesktopce_rdp.Prelude.{
  ℕ, zero, suc, ◌+◌, ◌-◌, ◌%◌, ◌^◌, min, Bool, none, some, List, [], ◌∷◌, ltb, leb, ◌==◌,
  if◌then◌else◌, length, take, drop, bit_or,
}
use rdesktopce_rdp.Stream
use rdesktopce_rdp.Stream.{Stream, push_channel, pop_channel, out_uint32_le, out_uint8p, s_mark_end}
use rdesktopce_rdp.Link.{N, pure, ◌>>=◌, ◌>>◌, on_out}
use rdesktopce_rdp.Secure.{Ssl, Keys}
use rdesktopce_rdp.Secure.Packet.{sec_init, sec_send_to_channel}
use rdesktopce_rdp.Channels.{VChannel, chunk_length, shows_protocol}

-- `flags |= CHANNEL_FLAG_SHOW_PROTOCOL` if the channel wants it.
abbrev pub with_show : Bool → ℕ → ℕ
with_show show flags = if show then bit_or flags 0x10 else flags

-- The length and the flags of each later fragment, in the rounds of the loop; `fuel` is at least `remaining`.
unfoldable pub rest_plan : ℕ → Bool → ℕ → List (ℕ × ℕ)
rest_plan zero show remaining = []
rest_plan (suc fuel) show remaining =
    let n : ℕ = min remaining chunk_length in
    let rest = rest_plan fuel show (remaining - n) in
    if ltb 0 remaining
    then (n, with_show show (if remaining - n == 0 then 0x02 else 0)) ∷ rest
    else []

-- The first fragment, and the loop behind it.
unfoldable pub plan : Bool → ℕ → List (ℕ × ℕ)
unfolding rest_plan
plan show len =
    let n : ℕ = min len chunk_length in
    (n, with_show show (if len - n == 0 then 0x03 else 0x01)) ∷ rest_plan len show (len - n)

-- `out_uint8p(s, data, n)` where `data` is a place in the same buffer.
unfoldable pub out_from : ℕ → ℕ → Stream.M (Unit {0})
out_from i n s =
    if leb (i + n) (length s.bytes) then out_uint8p (take n (drop i s.bytes)) s else none

module _ {Rc4 : Type 0} (ssl : Ssl Rc4) (encryption licensed : Bool) (userid : ℕ) where
  abbrev pub sec_flags : ℕ
  sec_flags = if encryption then 0x08 else 0

  unfoldable pub channel_init : ℕ → N (Unit {0})
  channel_init len = do sec_init licensed sec_flags (len + 8); on_out (push_channel 8)

  -- The fragments behind the first, copied from `i` on.
  unfoldable pub send_rest : ℕ → ℕ → ℕ → List (ℕ × ℕ) → Keys Rc4 → N (Keys Rc4)
  unfolding out_from
  send_rest id len i [] keys = pure keys
  send_rest id len i ((n, flags) ∷ ps) keys = do
    sec_init licensed sec_flags (n + 8)
    on_out (out_uint32_le len)
    on_out (out_uint32_le flags)
    on_out (out_from i n)
    on_out s_mark_end
    keys' ← sec_send_to_channel ssl licensed userid sec_flags id keys
    send_rest id len (i + n) ps keys'

  -- The first fragment in place: its header, and `s->end` behind its octets. The result is `data`.
  unfoldable pub first_header : ℕ → ℕ → ℕ → Stream.M ℕ
  first_header len n flags =
      Stream.◌>>◌ (out_uint32_le len)
        (Stream.◌>>◌ (out_uint32_le flags) (λ s. some (s.p + n, record s { end = s.p + n })))

  unfoldable pub send_plan : ℕ → ℕ → List (ℕ × ℕ) → Keys Rc4 → N (Keys Rc4)
  unfolding send_rest first_header
  send_plan id len [] keys = pure keys
  send_plan id len ((n, flags) ∷ ps) keys = do
    i ← on_out (first_header len n flags)
    keys' ← sec_send_to_channel ssl licensed userid sec_flags id keys
    send_rest id len i ps keys'

  -- `s->end - s->p - 8`
  unfoldable pub data_length : Stream.M ℕ
  data_length s = some ((s.end + 2 ^ 32 - s.p - 8) % 2 ^ 32, s)

  unfoldable pub channel_send : VChannel → Keys Rc4 → N (Keys Rc4)
  unfolding data_length plan send_plan
  channel_send channel keys = do
    on_out pop_channel
    len ← on_out data_length
    send_plan channel.mcs_id len (plan (shows_protocol channel.flags) len) keys
