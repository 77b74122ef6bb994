-- ===== src/Secure/Length.antt =====
-- source/secure.c: the GCC data is as long as it says.
use rdesktopce_rdp.Prelude.{
  ℕ, ◌+◌, ◌-◌, ◌*◌, ◌/◌, ◌%◌, ◌^◌, ◌≡◌, ◌≤◌, ◌<◌, refl, sym, ap, ◌∙◌, true, some, List, [], ◌∷◌,
  ◌++◌, map, ltb, if◌then◌else◌, length, take, drop, take-append-drop, length-drop, bit_or, arith,
  length-append, length-take, length-replicate, replicate, length-map,
}
use rdesktopce_rdp.Stream.{
  Stream, M, at, byte, ◌>>◌, out_uint8, out_uint8p, out_uint8s, out_uint16_be, out_uint16_le,
  out_uint32_le, out_uint32_be, s_mark_end, in_uint16_be,
}
use rdesktopce_rdp.Stream.Read.{At, in_uint16_be_lem}
use rdesktopce_rdp.Prelude.Bits.{bit_or_high}
use rdesktopce_rdp.Stream.Emit.{Writes, join, done, one, u16_be, u16_le, u32_le, run, emit}
use rdesktopce_rdp.Secure.Blob.{
  ChannelName, Client, wide, rdp_out_unistr, blob_length, host_length, out_conference,
  out_client_info, out_keyboard, out_settings, out_names, out_channels, out_blob, sec_out_mcs_data,
}

-- A writer of a known number of octets.
record Sized (m : M (Unit {0})) (n : ℕ) : Type 0 where
  octets : List ℕ
  writes : Writes m octets
  size : length octets ≡ n

also : {m k : M (Unit {0})} {a b : ℕ} → Sized m a → Sized k b → Sized (m >> k) (a + b)
also p q = record {
  octets = p.octets ++ q.octets;
  writes = join p.writes q.writes;
  size = length-append p.octets q.octets ∙ omega (arith, p.size, q.size);
}

o1 : (v : ℕ) → Sized (out_uint8 v) 1
o1 v = record { octets = v ∷ []; writes = one v; size = refl }

be2 : (v : ℕ) → Sized (out_uint16_be v) 2
be2 v = record { octets = v / 256 ∷ v ∷ []; writes = u16_be v; size = refl }

le2 : (v : ℕ) → Sized (out_uint16_le v) 2
le2 v = record { octets = v ∷ v / 256 ∷ []; writes = u16_le v; size = refl }

le4 : (v : ℕ) → Sized (out_uint32_le v) 4
le4 v = record {
  octets = v % 2 ^ 16 ∷ v % 2 ^ 16 / 256 ∷ v / 2 ^ 16 % 2 ^ 16 ∷ v / 2 ^ 16 % 2 ^ 16 / 256 ∷ [];
  writes = u32_le v;
  size = refl;
}

be4 : (v : ℕ) → Sized (out_uint32_be v) 4
unfolding out_uint32_be
be4 v = also (be2 (v / 2 ^ 16 % 2 ^ 16)) (be2 (v % 2 ^ 16))

octets_of : (bs : List ℕ) → Sized (out_uint8p bs) (length bs)
octets_of bs = record { octets = bs; writes = run bs; size = refl }

zeros : (n : ℕ) → Sized (out_uint8s n) n
unfolding out_uint8s
zeros n = record {
  octets = replicate n 0;
  writes = run (replicate n 0);
  size = length-replicate n (let z : ℕ = 0 in z);
}

length-wide : (cs : List ℕ) → length (wide cs) ≡ 2 * length cs
unfolding wide
length-wide [] = omega arith
length-wide (c ∷ cs) = omega (arith, length-wide cs)

resized : {m : M (Unit {0})} {a b : ℕ} → a ≡ b → Sized m a → Sized m b
resized e p = record { octets = p.octets; writes = p.writes; size = p.size ∙ e }

host_bound : (c : Client) → host_length c ≤ 30
unfolding host_length
host_bound c = ground arith

host_half : (c : Client) → 2 * ((host_length c + 2) / 2) ≡ host_length c + 2
unfolding host_length
host_half c = ground arith

host_chars : (c : Client) → (host_length c + 2) / 2 ≤ length c.hostname + 1
unfolding host_length
host_chars c = ground arith

unistr : (c : Client) → Sized (rdp_out_unistr c.hostname (host_length c)) (host_length c + 2)
unfolding rdp_out_unistr
unistr c =
    let cs = take ((host_length c + 2) / 2) (c.hostname ++ (0 ∷ [])) in
    resized
      (omega (
        arith,
        length-wide cs,
        length-take ((host_length c + 2) / 2) (c.hostname ++ (0 ∷ [])),
        length-append c.hostname (0 ∷ []),
        host_half c,
        host_chars c,
      ))
      (octets_of (wide cs))

-- The conference request: two of its fields announce a length, under a flag in the top bit.
abbrev conference_octets : ℕ → ℕ → List ℕ
conference_octets whole client =
    0
    ∷ 5
    ∷ 0
    ∷ 0x14
    ∷ 0x7c
    ∷ 0
    ∷ 1
    ∷ whole / 256
    ∷ whole
    ∷ 0
    ∷ 8
    ∷ 0
    ∷ 16
    ∷ 0
    ∷ 0xc001
    ∷ 0xc0
    ∷ 0
    ∷ 0x7544
    ∷ 0x75
    ∷ 0x6163
    ∷ 0x61
    ∷ client / 256
    ∷ client
    ∷ []

conference-Writes :
    (c : Client)
    → Writes
        (out_conference c)
        (conference_octets (bit_or (blob_length c) 0x8000) (bit_or (blob_length c - 14) 0x8000))
unfolding out_conference
conference-Writes c = join (u16_be 5) (
    join (u16_be 0x14) (
      join (one 0x7c) (
        join (u16_be 1) (
          join (u16_be (bit_or (blob_length c) 0x8000)) (
            join (u16_be 8) (
              join (u16_be 16) (
                join (one 0) (
                  join (u16_le 0xc001) (
                    join (one 0) (
                      join (u32_le 0x61637544)
                        (u16_be (bit_or (blob_length c - 14) 0x8000))))))))))))

client_info : (c : Client) → Sized (out_client_info c) 56
unfolding out_client_info
client_info c = resized (omega (arith, host_bound c)) (
    also (le2 0xc001) (
      also (le2 216) (
        also (le2 (if c.rdp5 then 4 else 1)) (
          also (le2 8) (
            also (le2 c.width) (
              also (le2 c.height) (
                also (le2 0xca01) (
                  also (le2 0xaa03) (
                    also (le4 c.keylayout)
                      (also (le4 2600) (also (unistr c) (zeros (30 - host_length c)))))))))))))

keyboard : (c : Client) (p : ℕ) → Sized (out_keyboard c p) 160
unfolding out_keyboard
keyboard c p = also (le4 c.keyboard_type) (
    also (le4 c.keyboard_subtype) (
      also (le4 c.keyboard_functionkeys) (
        also (zeros 64) (
          also (le2 0xca01) (
            also (le2 1) (
              also (le4 0) (
                also (o1 c.server_depth)
                  (also (le2 0x0700) (also (o1 0) (also (le4 1) (also (zeros 64) (le4 p))))))))))))

settings : (c : Client) → Sized (out_settings c) 24
unfolding out_settings
settings c = also (le2 0xc004) (
    also (le2 12) (
      also (le4 (if c.console_session then 0xb else 9)) (
        also (le4 0) (
          also (le2 0xc002)
            (also (le2 12) (also (le4 (if c.encryption then 0x3 else 0)) (le4 0)))))))

-- The names have their eight octets.
pub data Named : List ChannelName → Type 0 where
  none_left : Named []
  one_more :
      {n : ChannelName} {ns : List ChannelName} → 8 ≤ length n.name → Named ns → Named (n ∷ ns)

names : (ns : List ChannelName) → Named ns → Sized (out_names ns) (length ns * 12)
unfolding out_names
names [] k = record { octets = []; writes = done; size = omega arith }
names (n ∷ ns) (one_more h k) =
    resized (omega (arith, length-take 8 n.name))
      (also (octets_of (take 8 n.name)) (also (be4 n.flags) (names ns k)))

channels :
    (ns : List ChannelName)
    → Named ns
    → Sized (out_channels ns) (if ltb 0 (length ns) then length ns * 12 + 8 else 0)
unfolding out_channels
channels [] k = record { octets = []; writes = done; size = omega arith }
channels (n ∷ ns) k =
    let there : ltb 0 (length (n ∷ ns)) ≡ true = ground arith in
    rw (there) (
      resized (omega arith) (
        also (le2 0xc003) (
          also (le2 (length (n ∷ ns) * 12 + 8)) (also (le4 (length (n ∷ ns))) (names (n ∷ ns) k)))))

-- The sections behind the conference request.
sections :
    (c : Client) (p : ℕ)
    → Named c.channels
    → Sized
        (do out_client_info c; out_keyboard c p; out_settings c; out_channels c.channels)
        (blob_length c - 14)
unfolding blob_length
sections c p k =
    resized (omega arith)
      (also (client_info c) (also (keyboard c p) (also (settings c) (channels c.channels k))))

abbrev blob_octets : (c : Client) → List ℕ → List ℕ
blob_octets c octets =
    conference_octets (bit_or (blob_length c) 0x8000) (bit_or (blob_length c - 14) 0x8000) ++ octets

blob-Writes :
    (c : Client) (p : ℕ) (k : Named c.channels)
    → Writes (out_blob c p) (blob_octets c (sections c p k).octets)
unfolding out_blob
blob-Writes c p k = join (conference-Writes c) (sections c p k).writes

length-blob_octets :
    (c : Client) (p : ℕ) (k : Named c.channels)
    → length (blob_octets c (sections c p k).octets) ≡ 9 + blob_length c
unfolding blob_length
length-blob_octets c p k = omega (arith, (sections c p k).size)

-- A field of sixteen bits that holds a length under the flag in the top bit.
announced :
    (s : Stream) (n behind : ℕ)
    → n < 2 ^ 15
    → n ≡ behind
    → At s.bytes s.p (byte (bit_or n 0x8000 / 256) ∷ byte (bit_or n 0x8000) ∷ [])
    → in_uint16_be s ≡ some (2 ^ 15 + behind, at s s.bytes (s.p + 1 + 1))
announced s n behind small e h =
    let v = bit_or n 0x8000 in
    let v_lem : v ≡ n + 2 ^ 15 = bit_or_high 15 n small in
    in_uint16_be_lem s (byte (v / 256)) (byte v) h (omega arith) (omega arith)
    ∙ ap (λ w. some (w, at s s.bytes (s.p + 1 + 1))) (omega (arith, v_lem))

-- `sec_out_mcs_data` at the start of a buffer that has room for the GCC data ends 9 octets behind
-- the length it computes and keeps the size of the buffer, and both lengths of the conference
-- header, read back, are the numbers of octets behind them, with the top bit set; for a length
-- below 32 KB and channels whose names have eight octets, whatever the name of the client.
pub sec_out_mcs_data-length :
    (c : Client) (selected_protocol : ℕ) (s : Stream)
    → Named c.channels
    → s.p ≡ 0
    → blob_length c < 2 ^ 15
    → 9 + blob_length c ≤ length s.bytes
    → (s' : Stream) × (sec_out_mcs_data c selected_protocol s ≡ some (tt, s'))
      × (s'.end ≡ 9 + blob_length c)
      × (in_uint16_be (at s' s'.bytes 7) ≡ some (2 ^ 15 + (s'.end - 9), at s' s'.bytes 9))
      × (in_uint16_be (at s' s'.bytes 21) ≡ some (2 ^ 15 + (s'.end - 23), at s' s'.bytes 23))
      × (length s'.bytes ≡ length s.bytes)
unfolding sec_out_mcs_data s_mark_end
sec_out_mcs_data-length c selected_protocol s k z small h =
    let octets = blob_octets c (sections c selected_protocol k).octets in
    let size = length-blob_octets c selected_protocol k in
    let n : ℕ = length octets in
    let old = take n s.bytes in
    let post = drop n s.bytes in
    let whole = take-append-drop n s.bytes in
    let start : at s ([] ++ (old ++ post)) 0 ≡ s =
      (λ i. record s { bytes = whole i; p = sym z i }) in
    let moved : 0 + n ≡ n = omega arith in
    let ran : out_blob c selected_protocol s ≡ some (tt, at s (map byte octets ++ post) n) =
      ap (out_blob c selected_protocol) (sym start)
      ∙ emit s [] old post 0 (blob-Writes c selected_protocol k) refl
          (omega (arith, length-take n s.bytes, size))
      ∙ ap (λ i. some (tt, at s (map byte octets ++ post) i)) moved in
    let s' : Stream = record s { bytes = map byte octets ++ post; p = n; end = n } in
    (
      s',
      rw ran refl,
      size,
      announced (at s' s'.bytes 7) (blob_length c) (n - 9) small (omega (arith, size))
          (refl, (refl, tt)),
      announced (at s' s'.bytes 21) (blob_length c - 14) (n - 23) (omega (arith, small))
          (omega (arith, size)) (refl, (refl, tt)),
      omega (
        arith,
        length-append (map byte octets) post,
        length-map byte octets,
        length-drop n s.bytes,
        size,
      ),
    )
