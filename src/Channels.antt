-- ===== src/Channels.antt =====
-- source/channels.c: the virtual channels, whose data goes in fragments of up to 1600 octets.
pub mod Defrag
pub mod Send
pub mod Route
mod Tests
use rdesktopce_rdp.Prelude.{
  ℕ, zero, suc, ◌+◌, ◌-◌, ◌*◌, ◌/◌, ◌%◌, ◌^◌, min, Bool, true, false, Option, none, some, List, [],
  ◌∷◌, ◌++◌, ltb, leb, ◌==◌, ◌&&◌, not, if◌then◌else◌, length, take, drop, bit_and, bit_or,
}
use rdesktopce_rdp.Stream
use rdesktopce_rdp.Stream.{Stream, in_uint32_le}
use rdesktopce_rdp.Tcp.{grow}

-- The defragmentation buffer of a channel: `size` is the length of `bytes`.
pub record Buffer : Type 0 where
  pub bytes : List ℕ
  pub p : ℕ

-- `VCHANNEL`, less its callback.
pub record VChannel : Type 0 where
  pub mcs_id : ℕ
  pub name : List ℕ
  pub flags : ℕ
  pub buffer : Buffer

abbrev pub chunk_length : ℕ
chunk_length = 1600

-- CHANNEL_OPTION_SHOW_PROTOCOL
abbrev pub shows_protocol : ℕ → Bool
shows_protocol flags = not (bit_and flags 0x00200000 == 0)

-- A new entry of `g_channels`, or NULL. `strncpy` copies 8 octets and pads with zeros.
unfoldable pub channel_register : Bool → List ℕ → ℕ → List VChannel → Option (List VChannel)
channel_register rdp5 name flags channels =
    if not rdp5
    then none
    else if leb 6 (length channels)
    then none
    else some (
        channels
        ++ (record {
          mcs_id = (1003 + 1 + length channels) % 2 ^ 16;
          name = take 8 (name ++ (0 ∷ 0 ∷ 0 ∷ 0 ∷ 0 ∷ 0 ∷ 0 ∷ 0 ∷ []));
          flags = flags;
          buffer = record { bytes = []; p = 0 };
        }
            ∷ []))

-- What a fragment leaves: the buffer, and the octets for the callback if it is called.
-- `reads` is how far the callback moves `p` of the buffer.
unfoldable pub defragment : (List ℕ → ℕ) → ℕ → ℕ → List ℕ → Buffer → Buffer × Option (List ℕ)
unfolding grow
defragment reads len flags octets b₀ =
    let first : Bool = not (bit_and flags 0x01 == 0) in
    let last : Bool = not (bit_and flags 0x02 == 0) in
    let b : Buffer = if first then record { bytes = grow len b₀.bytes; p = 0 } else b₀ in
    let n : ℕ = min (length octets) (length b.bytes - b.p) in
    let bytes = take b.p b.bytes ++ (take n octets ++ drop (b.p + n) b.bytes) in
    let whole = take (b.p + n) bytes in
    if first && last
    then (b₀, some octets)
    else if last
    then (record { bytes = bytes; p = reads whole }, some whole)
    else (record { bytes = bytes; p = b.p + n }, none)

-- The octets from `p` to `end`; a stream that ends before `p` makes `memcpy` fault.
unfoldable pub remaining_octets : Stream.M (List ℕ)
remaining_octets s =
    if leb s.p s.end && leb s.end (length s.bytes)
    then some (take (s.end - s.p) (drop s.p s.bytes), s)
    else none

-- The stream without its header: the announced length, the flags and the octets.
unfoldable pub in_fragment : Stream.M (ℕ × ℕ × List ℕ)
unfolding remaining_octets
in_fragment = Stream.◌>>=◌ in_uint32_le λ len.
    Stream.◌>>=◌ in_uint32_le
      λ flags. Stream.◌>>=◌ remaining_octets λ octets. Stream.pure (len, flags, octets)

-- The channel with the id, and what it makes of the fragment; `reads` has the callbacks by id.
unfoldable pub dispatch :
    (ℕ → List ℕ → ℕ)
    → ℕ
    → Option ((ℕ × ℕ × List ℕ) × Stream)
    → List VChannel
    → Option (List VChannel × Option (ℕ × List ℕ))
unfolding defragment
dispatch reads id fragment [] = some ([], none)
dispatch reads id fragment (c ∷ cs) =
    let others = dispatch reads id fragment cs in
    if c.mcs_id == id
    then elim fragment [
      | none ↦ none
      | some ((len, flags, octets), s) ↦
          let (b, out) = defragment (reads id) len flags octets c.buffer in
          some
            (record c { buffer = b } ∷ cs, elim out [ none ↦ none | some whole ↦ some (id, whole) ])
    ]
    else elim others [ none ↦ none | some (cs', event) ↦ some (c ∷ cs', event) ]

-- The callback that is called, by the id of its channel, with its octets.
unfoldable pub channel_process :
    (ℕ → List ℕ → ℕ) → Stream → ℕ → List VChannel → Option (List VChannel × Option (ℕ × List ℕ))
unfolding dispatch in_fragment
channel_process reads s id channels = dispatch reads id (in_fragment s) channels
