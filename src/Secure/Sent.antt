-- ===== src/Secure/Sent.antt =====
-- source/secure.c: what `sec_send_to_channel` puts on the wire.
use rdesktopce_rdp.Prelude.{
  ℕ, ◌+◌, ◌-◌, ◌/◌, ◌%◌, ◌^◌, ◌≡◌, refl, sym, ap, ◌∙◌, Bool, true, false, some, List, [], ◌∷◌, ◌++◌,
  not, if◌then◌else◌, length, take, drop, leb, map, arith, length-append, take-append, drop-append,
  append_assoc,
}
use rdesktopce_rdp.Stream
use rdesktopce_rdp.Stream.{Stream, at, byte, pop_sec, out_uint32_le}
use rdesktopce_rdp.Stream.Emit.{emit, u32_le}
use rdesktopce_rdp.Secure.{Ssl, Keys, sec_sign, sec_encrypt}
use rdesktopce_rdp.Secure.Packet.{encrypts, protect, sec_header}

abbrev pub le32 : ℕ → List ℕ
le32 v =
    map byte (v % 2 ^ 16 ∷ v % 2 ^ 16 / 256 ∷ v / 2 ^ 16 % 2 ^ 16 ∷ v / 2 ^ 16 % 2 ^ 16 / 256 ∷ [])

-- The stream of `sec_init`, with `octets` written behind the headers and marked as end.
abbrev pub readied : Stream → List ℕ → List ℕ → List ℕ → List ℕ → Stream
readied s pre hash octets post = record s {
  bytes = pre ++ (hash ++ (octets ++ post));
  sec_hdr = length pre;
  end = length pre + length hash + length octets;
}

drop_two : (xs ys zs : List ℕ) (n : ℕ) → n ≡ length xs + length ys → drop n (xs ++ (ys ++ zs)) ≡ zs
drop_two xs ys zs n e =
    ap (drop n) (sym (append_assoc xs ys zs))
    ∙ drop-append (xs ++ ys) zs n (e ∙ sym (length-append xs ys))

module _ {Rc4 : Type 0} (ssl : Ssl Rc4) where
  abbrev pub signature : Keys Rc4 → List ℕ → List ℕ
  signature keys octets = sec_sign ssl 8 (take keys.rc4_key_len keys.sign_key) octets

  -- The packet for the layer below, and the keys after it.
  unfoldable pub secured : Bool → ℕ → List ℕ → Keys Rc4 → List ℕ × Keys Rc4
  secured licensed flags octets keys =
      let (crypted, keys') = sec_encrypt ssl octets keys in
      if encrypts flags
      then (le32 flags ++ (signature keys octets ++ crypted), keys')
      else if licensed
      then (octets, keys)
      else (le32 flags ++ octets, keys)

  protect_lem :
      (keys : Keys Rc4) (s : Stream) (pre hash octets post : List ℕ)
      → length hash ≡ 8
      → protect ssl keys (record s {
        bytes = pre ++ (hash ++ (octets ++ post));
        p = length pre;
        end = length pre + 8 + length octets;
      })
        ≡ some (
          (sec_encrypt ssl octets keys).1,
          record s {
            bytes = pre ++ (signature keys octets ++ ((sec_encrypt ssl octets keys).0 ++ post));
            p = length pre;
            end = length pre + 8 + length octets;
          },
        )
  unfolding protect
  protect_lem keys s pre hash octets post e =
      let n : ℕ = length pre + 8 + length octets in
      let bytes = pre ++ (hash ++ (octets ++ post)) in
      let before : take (length pre) bytes ≡ pre =
        take-append pre (hash ++ (octets ++ post)) (length pre) refl in
      let behind : drop (length pre + 8) bytes ≡ octets ++ post =
        drop_two pre hash (octets ++ post) (length pre + 8) (omega arith) in
      let within : take (n - length pre - 8) (octets ++ post) ≡ octets =
        take-append octets post (n - length pre - 8) (omega arith) in
      let after : drop n bytes ≡ post =
        ap (drop n) (sym (append_assoc pre hash (octets ++ post)))
        ∙ drop_two (pre ++ hash) octets post n (omega (arith, length-append pre hash)) in
      let fits : leb n (length bytes) ≡ true = ground (
        arith,
        length-append pre (hash ++ (octets ++ post)),
        length-append hash (octets ++ post),
        length-append octets post,
      ) in
      let ordered : leb (length pre + 8) n ≡ true = ground arith in
      rw (behind, within, before, after, fits, ordered)

  pub header_plain :
      (keys : Keys Rc4) (flags : ℕ) (s : Stream) (pre octets post : List ℕ)
      → encrypts flags ≡ false
      → sec_header ssl true flags keys (readied s pre [] octets post)
        ≡ some (keys, record (readied s pre [] octets post) { p = length pre })
  unfolding sec_header pop_sec
  header_plain keys flags s pre octets post e = rw e refl

  pub header_flags :
      (keys : Keys Rc4) (flags : ℕ) (s : Stream) (pre hash octets post : List ℕ)
      → encrypts flags ≡ false
      → length hash ≡ 4
      → sec_header ssl false flags keys (readied s pre hash octets post)
        ≡ some (
          keys,
          record (readied s pre hash octets post) {
            bytes = pre ++ (le32 flags ++ (octets ++ post));
            p = length pre + 4;
          },
        )
  unfolding sec_header pop_sec
  header_flags keys flags s pre hash octets post e h =
      rw
        (
          e,
          emit (readied s pre hash octets post) pre hash (octets ++ post) (length pre)
              (u32_le flags) refl h,
        )
        refl

  protect_at :
      (keys : Keys Rc4) (s : Stream) (pre hash octets post : List ℕ) (i n : ℕ)
      → length hash ≡ 8
      → i ≡ length pre
      → n ≡ length pre + 8 + length octets
      → protect ssl keys (record s { bytes = pre ++ (hash ++ (octets ++ post)); p = i; end = n })
        ≡ some (
          (sec_encrypt ssl octets keys).1,
          record s {
            bytes = pre ++ (signature keys octets ++ ((sec_encrypt ssl octets keys).0 ++ post));
            p = i;
            end = n;
          },
        )
  protect_at keys s pre hash octets post i n e ei en =
      rw (ei, en) (protect_lem keys s pre hash octets post e)

  flags_out :
      (licensed : Bool) (flags : ℕ)
      → encrypts flags ≡ true
      → (if not licensed
          then out_uint32_le flags
          else if encrypts flags
          then out_uint32_le flags
          else Stream.pure tt)
        ≡ out_uint32_le flags
  flags_out true flags e = rw e refl
  flags_out false flags e = refl

  pub header_encrypted :
      (keys : Keys Rc4) (licensed : Bool) (flags : ℕ) (s : Stream)
      (pre four eight octets post : List ℕ)
      → encrypts flags ≡ true
      → length four ≡ 4
      → length eight ≡ 8
      → sec_header ssl licensed flags keys (readied s pre (four ++ eight) octets post)
        ≡ some (
          (sec_encrypt ssl octets keys).1,
          record (readied s pre (four ++ eight) octets post) {
            bytes =
                (pre ++ le32 flags)
                ++ (signature keys octets ++ ((sec_encrypt ssl octets keys).0 ++ post));
            p = length pre + 4;
          },
        )
  unfolding sec_header pop_sec
  header_encrypted keys licensed flags s pre four eight octets post e h4 h8 =
      let t : Stream = readied s pre (four ++ eight) octets post in
      rw
        (
          flags_out licensed flags e,
          e,
          append_assoc four eight (octets ++ post),
          emit t pre four (eight ++ (octets ++ post)) (length pre) (u32_le flags) refl h4,
          sym (append_assoc pre (le32 flags) (eight ++ (octets ++ post))),
        )
        (protect_at keys t (pre ++ le32 flags) eight octets post (length pre + 4) t.end h8
          (omega (arith, length-append pre (le32 flags)))
          (omega (arith, length-append pre (le32 flags), length-append four eight)))
