-- ===== src/Secure/Received.antt =====
-- source/secure.c: what one end secures, the other receives.
use rdesktopce_rdp.Prelude.{
  ℕ, suc, ◌+◌, ◌-◌, ◌/◌, ◌^◌, ◌<◌, ◌≡◌, refl, sym, ap, subst, ◌∙◌, Bool, true, false, Option, some,
  List, ◌∷◌, ◌++◌, length, take, drop, length-append, append_assoc, take-append, drop-append, arith,
}
use rdesktopce_rdp.Stream.{byte}
use rdesktopce_rdp.Mcs.{global_channel}
use rdesktopce_rdp.Licence.{Holder}
use rdesktopce_rdp.Tcp.{Net}
use rdesktopce_rdp.Tcp.Recv.{avail}
use rdesktopce_rdp.Iso.Frame.{frame, tpkt}
use rdesktopce_rdp.Mcs.Data.{sdin, per_length, mcs_recv-sdin}
use rdesktopce_rdp.Secure.{Ssl, Keys, sec_encrypt, sec_decrypt}
use rdesktopce_rdp.Secure.Packet.{encrypts}
use rdesktopce_rdp.Secure.Sync.{Paired, Involutive, one-Paired}
use rdesktopce_rdp.Secure.Sent.{le32, signature, secured}
use rdesktopce_rdp.Secure.Wire.{Sizes, length-signature, length-encrypted}
use rdesktopce_rdp.Secure.Opened.{in_parts}
use rdesktopce_rdp.Secure.Receive.{Layers, Delivery, packet, has, sec_recv}

-- A packet that has arrived: its octets are those of the stream.
pub record Arrived {Rc4 : Type 0} (w : Layers Rc4) (keys' : Keys Rc4) (octets rest : List ℕ)
    (r : Option ((Delivery × Layers Rc4) × Net)) : Type 0 where
  pub net' : Net
  pub result : r ≡ some ((packet 3, record w { keys = keys' }), net')
  pub stream : take (net'.g_in.end - net'.g_in.p) (drop net'.g_in.p net'.g_in.bytes) ≡ octets
  pub left : avail net'.incoming ≡ rest

module _ {Rc4 : Type 0} (ssl : Ssl Rc4) (twice : Involutive ssl) (sizes : Sizes ssl)
    (holder : Holder) (reads : ℕ → List ℕ → ℕ) (userid flags : ℕ) (small : flags < 2 ^ 32)
    (encrypted : encrypts flags ≡ true) (no_licence : has flags 0x80 ≡ false)
    (no_redirect : has flags 0x400 ≡ false) where
  -- What is in front of the data of an indication.
  abbrev front : ℕ → ℕ → List ℕ → List ℕ
  front initiator channel payload =
      tpkt (length (sdin initiator channel payload) + 7)
      ++ (2
          ∷ 0xf0
          ∷ 0x80
          ∷ 104
          ∷ byte (initiator / 256)
          ∷ byte initiator
          ∷ byte (channel / 256)
          ∷ byte channel
          ∷ 0x70
          ∷ per_length (length payload))

  framed :
      (initiator channel : ℕ) (payload tail : List ℕ)
      → frame (sdin initiator channel payload) ++ tail
        ≡ front initiator channel payload ++ (payload ++ tail)
  framed initiator channel payload tail =
      ap
        (λ r.
          tpkt (length (sdin initiator channel payload) + 7)
          ++ (2
              ∷ 0xf0
              ∷ 0x80
              ∷ 104
              ∷ byte (initiator / 256)
              ∷ byte initiator
              ∷ byte (channel / 256)
              ∷ byte channel
              ∷ 0x70
              ∷ r))
        (append_assoc (per_length (length payload)) payload tail)

  from_wire :
      (rounds initiator : ℕ) (w : Layers Rc4) (net : Net) (sign crypted octets rest : List ℕ)
      → length sign ≡ 8
      → length crypted ≡ length octets
      → (sec_decrypt ssl crypted w.keys).0 ≡ octets
      → 12 + length octets < 2 ^ 15
      → avail net.incoming
        ≡ frame (sdin initiator global_channel (le32 flags ++ (sign ++ crypted))) ++ rest
      → Arrived w
          (sec_decrypt ssl crypted w.keys).1
          octets
          rest
          (sec_recv ssl holder reads userid (suc rounds) true w net)
  unfolding sec_recv
  from_wire rounds initiator w net sign crypted octets rest h8 hn clear short e =
      let payload = le32 flags ++ (sign ++ crypted) in
      let size : length payload ≡ 12 + length octets =
        omega (arith, length-append sign crypted, h8, hn) in
      let (net', tail, got, bytes_lem, p_lem, end_lem, left) =
        mcs_recv-sdin true net initiator global_channel payload rest (omega arith)
          (omega (arith, size, short)) e in
      let pre = front initiator global_channel payload in
      let first = pre ++ le32 flags in
      let s = net'.g_in in
      let packed : payload ++ tail ≡ le32 flags ++ (sign ++ (crypted ++ tail)) =
        append_assoc (le32 flags) (sign ++ crypted) tail
        ∙ ap (λ r. le32 flags ++ r) (append_assoc sign crypted tail) in
      let octets_lem : s.bytes ≡ first ++ (sign ++ (crypted ++ tail)) =
        bytes_lem
        ∙ framed initiator global_channel payload tail
        ∙ ap (λ r. pre ++ r) packed
        ∙ sym (append_assoc pre (le32 flags) (sign ++ (crypted ++ tail))) in
      let place : s.p ≡ length pre = p_lem ∙ omega arith in
      let ends : s.end ≡ length pre + 12 + length octets = omega (arith, end_lem, place, size) in
      let laid : s ≡ record s {
        bytes = first ++ (sign ++ (crypted ++ tail));
        p = length pre;
        end = length pre + 12 + length octets;
      } =
        λ i. record s { bytes = octets_lem i; p = place i; end = ends i } in
      let opened =
        in_parts ssl holder reads userid flags small encrypted no_licence no_redirect w net' s pre
          sign crypted octets tail h8 hn clear laid in
      let behind : length pre + 12 ≡ length (first ++ sign) =
        omega (arith, h8, length-append first sign, length-append pre (le32 flags)) in
      let now = (first ++ sign) ++ (octets ++ tail) in
      record {
        net' = record net' {
          g_in = record s {
            bytes = now;
            p = length pre + 12;
            end = length pre + 12 + length octets;
          };
        };
        result = rw (got, opened) refl;
        stream =
            ap (take (length pre + 12 + length octets - (length pre + 12)))
              (drop-append (first ++ sign) (octets ++ tail) (length pre + 12) behind)
            ∙ take-append octets tail _ (omega arith);
        left = left;
      }

  -- What a sender secures for the channel of the session with the flag to encrypt, and without
  -- those for a licence or a redirection, `sec_recv` gives back: of a packet below 32 KB that
  -- arrives in a data indication, however it is cut, the stream is at the clear octets and ends
  -- behind them, what came later is left unread, the keys of both ends agree again, and nothing
  -- else of the layers has changed; for an RC4 that is its own inverse, hashes and a cipher of the
  -- right sizes, and keys that agree.
  pub sec_recv-secured :
      (rounds : ℕ) (peer_licensed : Bool) (initiator : ℕ) (w : Layers Rc4) (sender : Keys Rc4)
      (net : Net) (octets rest : List ℕ)
      → Paired sender w.keys
      → 12 + length octets < 2 ^ 15
      → avail net.incoming
        ≡ frame (sdin initiator global_channel (secured ssl peer_licensed flags octets sender).0)
          ++ rest
      → (keys' : Keys Rc4) × Paired (secured ssl peer_licensed flags octets sender).1 keys'
        × Arrived w keys' octets rest (sec_recv ssl holder reads userid (suc rounds) true w net)
  unfolding secured
  sec_recv-secured rounds peer_licensed initiator w sender net octets rest paired short e =
      let crypted = (sec_encrypt ssl octets sender).0 in
      let (clear, paired') = one-Paired ssl twice octets sender w.keys paired in
      let kind : secured ssl peer_licensed flags octets sender ≡ (
        le32 flags ++ (signature ssl sender octets ++ crypted),
        (sec_encrypt ssl octets sender).1,
      ) =
        rw encrypted refl in
      (
        (sec_decrypt ssl crypted w.keys).1,
        subst (λ r. Paired r (sec_decrypt ssl crypted w.keys).1) (sym (ap (λ r. r.1) kind)) paired',
        from_wire rounds initiator w net (signature ssl sender octets) crypted octets rest
            (length-signature ssl sizes sender octets) (length-encrypted ssl sizes octets sender)
            clear short (e ∙ ap (λ r. frame (sdin initiator global_channel r.0) ++ rest) kind),
      )
