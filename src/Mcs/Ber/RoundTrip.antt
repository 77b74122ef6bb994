-- ===== src/Mcs/Ber/RoundTrip.antt =====
-- A BER header that is written is read back.
use rdesktopce_rdp.Prelude.{
  ℕ, ◌+◌, ◌/◌, ◌^◌, ◌≤◌, ◌<◌, ◌≡◌, sym, subst, true, Option, some, List, [], ◌∷◌, ◌++◌, map, arith,
  length, ltb, leb, if◌then◌else◌, Bool-cases, inl, inr, length-append, length-map, map-append,
}
use rdesktopce_rdp.Prelude.Bits.{top_bit}
use rdesktopce_rdp.Stream.{Stream, at, byte, in_uint8, next_be, s_check}
use rdesktopce_rdp.Stream.Read.{At, At-append, in_uint8_lem, in_uint16_be_lem}
use rdesktopce_rdp.Stream.Emit.{Writes, join, one, u16_be, emit}
use rdesktopce_rdp.Mcs.Ber.{ber_out_header, ber_parse_header, ber_length, in_length, check, in_tag}

unfoldable pub tag_octets : ℕ → List ℕ
tag_octets tag = if ltb 0xff tag then tag / 256 ∷ tag ∷ [] else tag ∷ []

unfoldable pub length_octets : ℕ → List ℕ
length_octets n = if leb 0x80 n then 0x82 ∷ n / 256 ∷ n ∷ [] else n ∷ []

pub ber_out_header-Writes :
    (tag n : ℕ) → Writes (ber_out_header tag n) (tag_octets tag ++ length_octets n)
unfolding ber_out_header tag_octets length_octets
ber_out_header-Writes tag n = elim (Bool-cases (ltb 0xff tag)) [
  | inl wide ↦ elim (Bool-cases (leb 0x80 n)) [
    | inl long ↦ rw (wide, long) (join (u16_be tag) (join (one 0x82) (u16_be n)))
    | inr short ↦ rw (wide, short) (join (u16_be tag) (one n))
  ]
  | inr narrow ↦ elim (Bool-cases (leb 0x80 n)) [
    | inl long ↦ rw (narrow, long) (join (one tag) (join (one 0x82) (u16_be n)))
    | inr short ↦ rw (narrow, short) (join (one tag) (one n))
  ]
]

module _ (s : Stream) where
  in_tag_lem :
      (tag : ℕ)
      → tag < 2 ^ 16
      → At s.bytes s.p (map byte (tag_octets tag))
      → in_tag tag s ≡ some (tag, at s s.bytes (s.p + length (tag_octets tag)))
  unfolding in_tag tag_octets
  in_tag_lem tag h a =
      ground (arith, in_uint16_be_lem s (byte (tag / 256)) (byte tag), in_uint8_lem s (byte tag))

  in_length_lem :
      (n : ℕ)
      → n < 2 ^ 16
      → At s.bytes s.p (map byte (length_octets n))
      → in_length s ≡ some (n, at s s.bytes (s.p + length (length_octets n)))
  unfolding in_length length_octets in_uint8 next_be ber_length
  in_length_lem n h a = ground (arith, top_bit (byte n))

At-split :
    (d : List ℕ) (i : ℕ) (xs ys : List ℕ) → At d i (xs ++ ys) → At d i xs × At d (i + length xs) ys
At-split d i [] ys h = (tt, subst (λ k. At d k ys) (omega arith) h)
At-split d i (x ∷ xs) ys h =
    let (front, back) = At-split d (i + 1) xs ys h.1 in
    ((h.0, front), subst (λ k. At d k ys) (omega arith) back)

abbrev pub header_octets : ℕ → ℕ → List ℕ
header_octets tag n = tag_octets tag ++ length_octets n

module _ (s : Stream) (tag n : ℕ) where
  -- The octets of a header are parsed to its length, whatever the variable held before.
  pub ber_parse_header_lem :
      (var : Option ℕ)
      → tag < 2 ^ 16
      → n < 2 ^ 16
      → At s.bytes s.p (map byte (header_octets tag n))
      → s.p + length (header_octets tag n) ≤ s.end
      → ber_parse_header tag var s
        ≡ some ((true, some n), at s s.bytes (s.p + length (header_octets tag n)))
  unfolding ber_parse_header check s_check
  ber_parse_header_lem var ht hn a fits =
      let parts =
        At-split s.bytes s.p (map byte (tag_octets tag)) (map byte (length_octets n))
          (rw (← map-append byte (tag_octets tag) (length_octets n)) a) in
      let t : Stream = at s s.bytes (s.p + length (tag_octets tag)) in
      let behind : At t.bytes t.p (map byte (length_octets n)) =
        subst (λ k. At s.bytes (s.p + k) (map byte (length_octets n)))
          (length-map byte (tag_octets tag)) parts.1 in
      rw (in_tag_lem s tag ht parts.0) (
        ground
          (arith, in_length_lem t n hn behind, length-append (tag_octets tag) (length_octets n)))

-- A BER header written to a buffer is parsed back from where it was written, for every tag and
-- length of 16 bits, if the packet does not end before it.
pub ber_round_trip :
    (s : Stream) (tag n : ℕ) (pre old post : List ℕ) (var : Option ℕ)
    → tag < 2 ^ 16
    → n < 2 ^ 16
    → s.p ≡ length pre
    → s.bytes ≡ pre ++ (old ++ post)
    → length old ≡ length (header_octets tag n)
    → s.p + length old ≤ s.end
    → (t : Stream) × (ber_out_header tag n s ≡ some (tt, t))
      × (ber_parse_header tag var (record t { p = s.p }) ≡ some ((true, some n), t))
ber_round_trip s tag n pre old post var ht hn hp hb ho fits =
    let hs : List ℕ = map byte (header_octets tag n) in
    let t : Stream = at s (pre ++ (hs ++ post)) (s.p + length (header_octets tag n)) in
    (
      t,
      subst (λ d. ber_out_header tag n (at s d s.p) ≡ some (tt, t)) (sym hb)
          (emit s pre old post s.p (ber_out_header-Writes tag n) hp ho),
      ber_parse_header_lem (record t { p = s.p }) tag n var ht hn (At-append pre hs post s.p hp)
          (omega arith),
    )
