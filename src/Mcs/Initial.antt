-- ===== src/Mcs/Initial.antt =====
-- source/mcs.c: MCS_CONNECT_INITIAL on the wire, as BER elements in each other.
use rdesktopce_rdp.Prelude.{
  ℕ, ◌+◌, ◌/◌, ◌^◌, ◌≤◌, ◌<◌, ◌≡◌, refl, sym, ap, subst, ◌∙◌, List, [], ◌∷◌, ◌++◌, arith, length,
  map, length-map, map-append, append_assoc,
}
use rdesktopce_rdp.Stream.{byte}
use rdesktopce_rdp.Tcp.{Net}
use rdesktopce_rdp.Tcp.Send.{Healthy}
use rdesktopce_rdp.Iso.Frame.{frame, Sent, iso_packet, iso_packet-Sent}
use rdesktopce_rdp.Mcs.{mcs_send_connect_initial}
use rdesktopce_rdp.Mcs.Pdu.{initial_length, out_connect_initial}
use rdesktopce_rdp.Mcs.Ber.RoundTrip.{header_octets, tag_octets, length_octets}
use rdesktopce_rdp.Mcs.Bodies.{
  integer, domain_params, initial_rest, initial_octets, out_connect_initial-Writes,
  length-initial_octets,
}

-- A tag, the length of the content, and the content.
abbrev pub element : ℕ → List ℕ → List ℕ
element tag content = map byte (header_octets tag (length content)) ++ content

abbrev pub integer_element : ℕ → List ℕ
integer_element v = element 2 (byte (v / 256) ∷ byte v ∷ [])

-- The parameters of a domain: channels, users, tokens, priorities, throughput, height, the size of a
-- PDU and the version.
abbrev pub params_element : ℕ → ℕ → ℕ → ℕ → List ℕ
params_element channels users tokens pdusize = element 0x30 (
    integer_element channels
    ++ (integer_element users
        ++ (integer_element tokens
            ++ (integer_element 1
                ++ (integer_element 0
                    ++ (integer_element 1 ++ (integer_element pdusize ++ integer_element 2)))))))

-- The domains, the upward flag, the three sets of parameters, and the data.
abbrev pub initial_content : List ℕ → List ℕ
initial_content octets =
    element 4 (1 ∷ [])
    ++ (element 4 (1 ∷ [])
        ++ (element 1 (0xff ∷ [])
            ++ (params_element 34 2 0 0xffff
                ++ (params_element 1 1 1 0x420
                    ++ (params_element 0xffff 0xfc17 0xffff 0xffff ++ element 4 octets)))))

-- The values written, and the octets they become.
record Octets (xs ys : List ℕ) : Type 0 where
  same : map byte xs ≡ ys

run-Octets : (xs : List ℕ) → Octets xs (map byte xs)
run-Octets xs = record { same = refl }

element-Octets :
    {n : ℕ} {xs ys : List ℕ} (tag : ℕ)
    → n ≡ length ys
    → Octets xs ys
    → Octets (header_octets tag n ++ xs) (element tag ys)
element-Octets {n} {xs} tag e p = record {
  same =
      map-append byte (header_octets tag n) xs
      ∙ (λ i. map byte (header_octets tag (e i)) ++ p.same i);
}

append-Octets : {xs ys us vs : List ℕ} → Octets xs us → Octets ys vs → Octets (xs ++ ys) (us ++ vs)
append-Octets {xs} {ys} p q = record { same = map-append byte xs ys ∙ (λ i. p.same i ++ q.same i) }

integer-Octets : (v : ℕ) → Octets (integer v) (integer_element v)
unfolding integer
integer-Octets v = element-Octets 2 refl (run-Octets (v / 256 ∷ v ∷ []))

domain_params-Octets : (a b c d : ℕ) → Octets (domain_params a b c d) (params_element a b c d)
unfolding domain_params tag_octets length_octets
domain_params-Octets a b c d =
    let i = integer-Octets in
    element-Octets 0x30 refl (
      append-Octets (i a) (
        append-Octets (i b) (
          append-Octets (i c) (
            append-Octets (i 1)
              (append-Octets (i 0) (append-Octets (i 1) (append-Octets (i d) (i 2))))))))

-- An element of one octet in front of others.
flag-Octets :
    (tag v : ℕ) {ys vs : List ℕ}
    → Octets ys vs
    → Octets (header_octets tag 1 ++ (v ∷ ys)) (element tag (byte v ∷ []) ++ vs)
flag-Octets tag v {ys} {vs} p =
    subst (λ xs. Octets xs (element tag (byte v ∷ []) ++ vs))
      (append_assoc (header_octets tag 1) (v ∷ []) ys)
      (append-Octets (element-Octets tag refl (run-Octets (v ∷ []))) p)

initial_rest-Octets : (bs : List ℕ) → Octets (initial_rest bs) (initial_content (map byte bs))
unfolding initial_rest
initial_rest-Octets bs =
    let p = domain_params-Octets in
    flag-Octets 4 1 (
      flag-Octets 4 1 (
        flag-Octets 1 0xff (
          append-Octets (p 34 2 0 0xffff) (
            append-Octets (p 1 1 1 0x420) (
              append-Octets (p 0xffff 0xfc17 0xffff 0xffff)
                (element-Octets 4 (sym (length-map byte bs)) (run-Octets bs)))))))

content_size :
    (bs : List ℕ) → 128 ≤ length bs → initial_length bs ≡ length (initial_content (map byte bs))
content_size bs h =
    sym (length-initial_octets bs h).0
    ∙ sym (length-map byte (initial_rest bs))
    ∙ ap length (initial_rest-Octets bs).same

octets_lem :
    (bs : List ℕ)
    → 128 ≤ length bs
    → map byte (initial_octets bs) ≡ element 0x7f65 (initial_content (map byte bs))
unfolding initial_octets
octets_lem bs h = (element-Octets 0x7f65 (content_size bs h) (initial_rest-Octets bs)).same

-- `mcs_send_connect_initial` on a healthy socket sends one frame with a well-formed
-- MCS_CONNECT_INITIAL: an element that holds the two domains, the upward flag, the three sets of
-- parameters and the GCC data, elements themselves, in which every length is that of its content;
-- for GCC data of 128 octets or more and a frame below 64 KB.
pub mcs_send_connect_initial-Sent :
    (net : Net) (bs : List ℕ)
    → 128 ≤ length bs
    → initial_length bs + 12 < 2 ^ 16
    → Healthy net.outgoing
    → Sent net
        (frame (element 0x7f65 (initial_content (map byte bs))))
        (mcs_send_connect_initial bs net)
unfolding mcs_send_connect_initial
mcs_send_connect_initial-Sent net bs long short ok =
    let size = (length-initial_octets bs long).1 in
    let sent =
      iso_packet-Sent net (out_connect_initial-Writes bs) (omega (arith, size, short)) ok in
    subst (λ p. Sent net (frame p) (mcs_send_connect_initial bs net)) (octets_lem bs long)
      (subst
        (λ n.
          Sent net (frame (map byte (initial_octets bs)))
            (iso_packet n (out_connect_initial bs) net))
        size sent)
