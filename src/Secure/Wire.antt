-- ===== src/Secure/Wire.antt =====
-- source/secure.c: a packet of the security layer on the wire.
use rdesktopce_rdp.Prelude.{
  ℕ, ◌+◌, ◌^◌, ◌≤◌, ◌<◌, ◌≡◌, refl, sym, ap, ◌∙◌, Bool, true, false, Option, some, List, [], ◌∷◌,
  ◌++◌, min, subst, length, take, drop, map, arith, length-append, append_assoc, take-append-drop,
  length-take, length-drop, Bool-cases, inl, inr,
}
use rdesktopce_rdp.Stream.{Stream, byte}
use rdesktopce_rdp.Tcp.{Net}
use rdesktopce_rdp.Tcp.Send.{Healthy}
use rdesktopce_rdp.Iso.Frame.{frame}
use rdesktopce_rdp.Mcs.Data.{sdrq_header, mcs_send_to_channel-Sent}
use rdesktopce_rdp.Secure.{Ssl, Keys, sec_sign, sec_encrypt}
use rdesktopce_rdp.Secure.Packet.{encrypts, header_length, sec_header, sec_send_to_channel}
use rdesktopce_rdp.Secure.Sent.{
  le32, readied, signature, secured, header_plain, header_flags, header_encrypted,
}

-- What is relied on: an MD5 is 16 octets, and RC4 keeps the length.
pub record Sizes {Rc4 : Type 0} (ssl : Ssl Rc4) : Type 0 where
  pub md5 : (octets : List ℕ) → length (ssl.md5 octets) ≡ 16
  pub rc4 : (k : Rc4) (octets : List ℕ) → length (ssl.rc4_crypt k octets).0 ≡ length octets

module _ {Rc4 : Type 0} (ssl : Ssl Rc4) (sizes : Sizes ssl) where
  pub length-signature :
      (keys : Keys Rc4) (octets : List ℕ) → length (signature ssl keys octets) ≡ 8
  unfolding sec_sign
  length-signature keys octets = length-take 8 _ ∙ ap (min 8) (sizes.md5 _)

  pub length-encrypted :
      (octets : List ℕ) (keys : Keys Rc4) → length (sec_encrypt ssl octets keys).0 ≡ length octets
  unfolding sec_encrypt
  length-encrypted octets keys = sizes.rc4 _ octets

  -- The security header adds its length to the packet.
  length-secured :
      (licensed : Bool) (flags : ℕ) (octets : List ℕ) (keys : Keys Rc4)
      → length (secured ssl licensed flags octets keys).0
        ≡ header_length licensed flags + length octets
  unfolding secured header_length
  length-secured licensed flags octets keys = elim (Bool-cases (encrypts flags)) [
    | inl e ↦ rw e (
        omega (
          arith,
          length-append (signature ssl keys octets) (sec_encrypt ssl octets keys).0,
          length-signature keys octets,
          length-encrypted octets keys,
        ))
    | inr e ↦ elim (Bool-cases licensed) [
      | inl l ↦ rw (e, l) (omega arith)
      | inr l ↦ rw (e, l) (omega arith)
    ]
  ]

  record Headed (licensed : Bool) (flags : ℕ) (keys : Keys Rc4) (t : Stream)
      (pre octets post : List ℕ) : Type 0 where
    place : ℕ
    result :
        sec_header ssl licensed flags keys t
        ≡ some (
          (secured ssl licensed flags octets keys).1,
          record t {
            bytes = pre ++ ((secured ssl licensed flags octets keys).0 ++ post);
            p = place;
          },
        )

  encrypted_tail :
      (pre four sign crypted post : List ℕ)
      → (pre ++ four) ++ (sign ++ (crypted ++ post)) ≡ pre ++ ((four ++ (sign ++ crypted)) ++ post)
  encrypted_tail pre four sign crypted post =
      rw
        (
          append_assoc pre four (sign ++ (crypted ++ post)),
          append_assoc four (sign ++ crypted) post,
          append_assoc sign crypted post,
        )
        refl

  with_encryption :
      (licensed : Bool) (flags : ℕ) (keys : Keys Rc4) (s : Stream) (pre hash octets post : List ℕ)
      → encrypts flags ≡ true
      → length hash ≡ 12
      → Headed licensed flags keys (readied s pre hash octets post) pre octets post
  unfolding secured
  with_encryption licensed flags keys s pre hash octets post e h = record {
    place = length pre + 4;
    result =
        subst
          (λ x.
            sec_header ssl licensed flags keys (readied s pre x octets post)
            ≡ some (
              (secured ssl licensed flags octets keys).1,
              record (readied s pre x octets post) {
                bytes = pre ++ ((secured ssl licensed flags octets keys).0 ++ post);
                p = length pre + 4;
              },
            ))
          (take-append-drop 4 hash)
          (rw
            (
              e,
              sym (
                  encrypted_tail pre (le32 flags) (signature ssl keys octets)
                    (sec_encrypt ssl octets keys).0 post),
            )
            (header_encrypted ssl keys licensed flags s pre (take 4 hash) (drop 4 hash) octets post
              e (omega (arith, length-take 4 hash)) (omega (arith, length-drop 4 hash))));
  }

  without_header :
      (flags : ℕ) (keys : Keys Rc4) (s : Stream) (pre hash octets post : List ℕ)
      → encrypts flags ≡ false
      → length hash ≡ 0
      → Headed true flags keys (readied s pre hash octets post) pre octets post
  unfolding secured
  without_header flags keys s pre [] octets post e h = record {
    place = length pre;
    result = rw e (header_plain ssl keys flags s pre octets post e);
  }
  without_header flags keys s pre (x ∷ xs) octets post e h = record {
    place = length pre;
    result = ground arith;
  }

  with_flags :
      (flags : ℕ) (keys : Keys Rc4) (s : Stream) (pre hash octets post : List ℕ)
      → encrypts flags ≡ false
      → length hash ≡ 4
      → Headed false flags keys (readied s pre hash octets post) pre octets post
  unfolding secured
  with_flags flags keys s pre hash octets post e h = record {
    place = length pre + 4;
    result = rw e (header_flags ssl keys flags s pre hash octets post e h);
  }

  header_all :
      (licensed : Bool) (flags : ℕ) (keys : Keys Rc4) (s : Stream) (pre hash octets post : List ℕ)
      → length hash ≡ header_length licensed flags
      → Headed licensed flags keys (readied s pre hash octets post) pre octets post
  unfolding header_length
  header_all true flags keys s pre hash octets post h = elim (Bool-cases (encrypts flags)) [
    | inl e ↦ with_encryption true flags keys s pre hash octets post e (ground arith)
    | inr e ↦ without_header flags keys s pre hash octets post e (ground arith)
  ]
  header_all false flags keys s pre hash octets post h = elim (Bool-cases (encrypts flags)) [
    | inl e ↦ with_encryption false flags keys s pre hash octets post e (ground arith)
    | inr e ↦ with_flags flags keys s pre hash octets post e (ground arith)
  ]

  header_length_bound : (licensed : Bool) (flags : ℕ) → header_length licensed flags ≤ 12
  unfolding header_length
  header_length_bound licensed flags = ground arith

  -- What became of a packet: the keys that `secured` says, and its octets in a send request on the wire.
  pub record Delivered (net : Net) (packet : List ℕ) (keys' : Keys Rc4)
      (r : Option (Keys Rc4 × Net)) : Type 0 where
    pub net' : Net
    pub result : r ≡ some (keys', net')
    pub wire : net'.wire ≡ net.wire ++ packet
    pub healthy : Healthy net'.outgoing
    pub incoming : net'.incoming ≡ net.incoming

  -- On the stream of `sec_init` with octets written and marked, `sec_send_to_channel` sends one
  -- request to the channel that carries the secured octets: bare, behind the flags, or behind the
  -- flags and the MAC of the clear octets and encrypted; for a healthy socket, hashes and a cipher
  -- of the right sizes, and a packet below 32 KB.
  pub sec_send_to_channel-Delivered :
      (licensed : Bool) (userid flags channel : ℕ) (keys : Keys Rc4) (net : Net) (s : Stream)
      (room header hash octets post : List ℕ)
      → net.g_out
        ≡ record (readied s (room ++ header) hash octets post) { iso_hdr = 0; mcs_hdr = 7 }
      → length room ≡ 7
      → length header ≡ 8
      → length hash ≡ header_length licensed flags
      → 12 + length octets < 2 ^ 15
      → Healthy net.outgoing
      → Delivered net
          (frame (
            map byte
              (sdrq_header userid channel (length (secured ssl licensed flags octets keys).0))
            ++ (secured ssl licensed flags octets keys).0))
          (secured ssl licensed flags octets keys).1
          (sec_send_to_channel ssl licensed userid flags channel keys net)
  unfolding sec_send_to_channel
  sec_send_to_channel-Delivered licensed userid flags channel keys net s room header hash octets
        post laid h7 h8 hh small ok =
      let packet = (secured ssl licensed flags octets keys).0 in
      let t : Stream = record s { iso_hdr = 0; mcs_hdr = 7 } in
      let head = header_all licensed flags keys t (room ++ header) hash octets post hh in
      let u : Stream = record (readied t (room ++ header) hash octets post) {
        bytes = (room ++ header) ++ (packet ++ post);
        p = head.place;
      } in
      let size = length-secured licensed flags octets keys in
      let parts = append_assoc room header (packet ++ post) in
      let ends : length (room ++ header) + length hash + length octets ≡ length packet + 15 =
        omega (arith, length-append room header, size) in
      let short : header_length licensed flags ≤ 12 = header_length_bound licensed flags in
      let sent =
        mcs_send_to_channel-Sent (record net { g_out = u })
          (record t { p = head.place; sec_hdr = length (room ++ header) }) room header packet post
          userid channel (λ i. record u { bytes = parts i; end = ends i }) h7 h8
          (omega (arith, size)) ok in
      record {
        net' = sent.net';
        result = rw (laid, head.result, sent.result) refl;
        wire = sent.wire;
        healthy = sent.healthy;
        incoming = sent.incoming;
      }
