-- ===== src/Secure/Opened.antt =====
-- source/secure.c: an encrypted packet in its parts.
use rdesktopce_rdp.Prelude.{
  ℕ, ◌+◌, ◌-◌, ◌^◌, ◌<◌, ◌≡◌, refl, sym, ap, subst, ◌∙◌, true, false, some, List, ◌++◌, leb, length,
  take, drop, length-append, append_assoc, take-append, drop-append, arith,
}
use rdesktopce_rdp.Stream.{Stream, at, in_uint32_le}
use rdesktopce_rdp.Stream.Read.{At, At-append, in_uint32_le_lem}
use rdesktopce_rdp.Stream.Takes.{read_at}
use rdesktopce_rdp.Mcs.{channel_data, global_channel}
use rdesktopce_rdp.Licence.{Holder}
use rdesktopce_rdp.Tcp.{Net}
use rdesktopce_rdp.Secure.{Ssl, Keys, sec_decrypt}
use rdesktopce_rdp.Secure.Packet.{encrypts}
use rdesktopce_rdp.Secure.Sent.{le32}
use rdesktopce_rdp.Secure.Receive.{
  Layers, packet, in_signed, in_encrypted, to_channel, has, sec_received,
}

module _ {Rc4 : Type 0} (ssl : Ssl Rc4) where
  -- The octets behind a signature are decrypted where they stand.
  in_signed_lem :
      (keys : Keys Rc4) (s : Stream) (pre sign crypted post : List ℕ)
      → length sign ≡ 8
      → length (sec_decrypt ssl crypted keys).0 ≡ length crypted
      → in_signed ssl keys (record s {
        bytes = pre ++ (sign ++ (crypted ++ post));
        p = length pre;
        end = length pre + 8 + length crypted;
      })
        ≡ some (
          (sec_decrypt ssl crypted keys).1,
          record s {
            bytes = (pre ++ sign) ++ ((sec_decrypt ssl crypted keys).0 ++ post);
            p = length pre + 8;
            end = length pre + 8 + length crypted;
          },
        )
  unfolding in_signed
  in_signed_lem keys s pre sign crypted post h k =
      let d = pre ++ (sign ++ (crypted ++ post)) in
      let p = length pre + 8 in
      let split : d ≡ (pre ++ sign) ++ (crypted ++ post) =
        sym (append_assoc pre sign (crypted ++ post)) in
      let size : p ≡ length (pre ++ sign) = omega (arith, h, length-append pre sign) in
      let behind : drop p d ≡ crypted ++ post =
        ap (drop p) split ∙ drop-append (pre ++ sign) (crypted ++ post) p size in
      let before : take p d ≡ pre ++ sign =
        ap (take p) split ∙ take-append (pre ++ sign) (crypted ++ post) p size in
      let here : take (p + length crypted - p) (crypted ++ post) ≡ crypted =
        take-append crypted post _ (omega arith) in
      let after : drop (p + length crypted) d ≡ post =
        ap (drop (p + length crypted)) (split ∙ sym (append_assoc (pre ++ sign) crypted post))
        ∙ drop-append ((pre ++ sign) ++ crypted) post _
            (omega (arith, size, length-append (pre ++ sign) crypted)) in
      let ordered : leb p (p + length crypted) ≡ true = ground arith in
      let fits : leb (p + length crypted) (length d) ≡ true = ground (
        arith,
        ap length split,
        size,
        length-append (pre ++ sign) (crypted ++ post),
        length-append crypted post,
      ) in
      rw (behind, before, after, here, ordered, fits) refl

flags_lem :
    (flags : ℕ) (s : Stream)
    → flags < 2 ^ 32
    → At s.bytes s.p (le32 flags)
    → in_uint32_le s ≡ some (flags, at s s.bytes (s.p + 4))
flags_lem flags s small h =
    in_uint32_le_lem s _ _ _ _ h ∙ read_at s _ _ _ _ (omega (arith, small)) (omega arith)

module _ {Rc4 : Type 0} (ssl : Ssl Rc4) (holder : Holder) (reads : ℕ → List ℕ → ℕ)
    (userid flags : ℕ) (small : flags < 2 ^ 32) (encrypted : encrypts flags ≡ true)
    (no_licence : has flags 0x80 ≡ false) (no_redirect : has flags 0x400 ≡ false) where
  -- The three parts of what was secured, in a packet.
  pub in_parts :
      (w : Layers Rc4) (net : Net) (s : Stream) (pre sign crypted octets post : List ℕ)
      → length sign ≡ 8
      → length crypted ≡ length octets
      → (sec_decrypt ssl crypted w.keys).0 ≡ octets
      → net.g_in ≡ record s {
        bytes = (pre ++ le32 flags) ++ (sign ++ (crypted ++ post));
        p = length pre;
        end = length pre + 12 + length octets;
      }
      → sec_received ssl holder reads userid true (channel_data global_channel) w net
        ≡ some (
          (packet 3, record w { keys = (sec_decrypt ssl crypted w.keys).1 }),
          record net {
            g_in = record s {
              bytes = ((pre ++ le32 flags) ++ sign) ++ (octets ++ post);
              p = length pre + 12;
              end = length pre + 12 + length octets;
            };
          },
        )
  unfolding sec_received in_encrypted to_channel
  in_parts w net s pre sign crypted octets post h8 hn clear laid =
      let d = (pre ++ le32 flags) ++ (sign ++ (crypted ++ post)) in
      let first = pre ++ le32 flags in
      let t : Stream = record s {
        bytes = d;
        p = length pre;
        end = length pre + 12 + length octets;
      } in
      let at_flags : At d (length pre) (le32 flags) =
        subst (λ k. At k (length pre) (le32 flags))
          (sym (append_assoc pre (le32 flags) (sign ++ (crypted ++ post))))
          (At-append pre (le32 flags) (sign ++ (crypted ++ post)) (length pre) refl) in
      let header = flags_lem flags t small at_flags in
      let four : length pre + 4 ≡ length first = omega (arith, length-append pre (le32 flags)) in
      let signed =
        in_signed_lem ssl w.keys s first sign crypted post h8 (ap length clear ∙ sym hn) in
      let place : length first + 8 ≡ length pre + 12 = omega (arith, four) in
      let ends : length pre + 12 + length octets ≡ length first + 8 + length crypted =
        omega (arith, four, hn) in
      let there : Stream = record s {
        bytes = d;
        p = length pre + 4;
        end = length pre + 12 + length octets;
      } in
      let signed' : in_signed ssl w.keys there
          ≡ some (
            (sec_decrypt ssl crypted w.keys).1,
            record s {
              bytes = (first ++ sign) ++ (octets ++ post);
              p = length pre + 12;
              end = length pre + 12 + length octets;
            },
          ) =
        ap (λ (q : ℕ × ℕ). in_signed ssl w.keys (record s { bytes = d; p = q.0; end = q.1 }))
          (λ i. (four i, ends i))
        ∙ signed
        ∙ ap
            (λ (q : List ℕ × ℕ). some (
              (sec_decrypt ssl crypted w.keys).1,
              record s {
                bytes = (first ++ sign) ++ (q.0 ++ post);
                p = q.1;
                end = length first + 8 + length crypted;
              },
            ))
            (λ i. (clear i, place i))
        ∙ ap
            (λ k. some (
              (sec_decrypt ssl crypted w.keys).1,
              record s {
                bytes = (first ++ sign) ++ (octets ++ post);
                p = length pre + 12;
                end = k;
              },
            ))
            (sym ends) in
      rw (laid, header, encrypted, no_licence, no_redirect, signed') refl
