-- ===== src/Mcs/Bodies.antt =====
-- The octets of the PDUs that the client sends.
use rdesktopce_rdp.Prelude.{
  ℕ, ◌+◌, ◌/◌, ◌≤◌, ◌≡◌, refl, true, List, [], ◌∷◌, ◌++◌, arith, length, leb,
}
use rdesktopce_rdp.Stream.Emit.{Writes, join, one, u16_be, run}
use rdesktopce_rdp.Mcs.Ber.{ber_out_integer}
use rdesktopce_rdp.Mcs.Ber.RoundTrip.{
  header_octets, ber_out_header-Writes, tag_octets, length_octets,
}
use rdesktopce_rdp.Mcs.Pdu.{
  mcs_out_domain_params, out_connect_initial, out_edrq, out_aurq, out_cjrq, out_sdrq,
  initial_length,
}

abbrev pub edrq : List ℕ
edrq = 4 ∷ 0 ∷ 1 ∷ 0 ∷ 1 ∷ []

pub out_edrq-Writes : Writes out_edrq edrq
unfolding out_edrq
out_edrq-Writes = join (one 4) (join (u16_be 1) (u16_be 1))

pub out_aurq-Writes : Writes out_aurq (40 ∷ [])
unfolding out_aurq
out_aurq-Writes = one 40

abbrev pub cjrq : ℕ → ℕ → List ℕ
cjrq userid chanid = 56 ∷ userid / 256 ∷ userid ∷ chanid / 256 ∷ chanid ∷ []

pub out_cjrq-Writes : (userid chanid : ℕ) → Writes (out_cjrq userid chanid) (cjrq userid chanid)
unfolding out_cjrq
out_cjrq-Writes userid chanid = join (one 56) (join (u16_be userid) (u16_be chanid))

pub out_sdrq-Writes :
    (userid channel len : ℕ)
    → Writes
        (out_sdrq userid channel len)
        (100 ∷ userid / 256 ∷ userid ∷ channel / 256 ∷ channel ∷ 0x70 ∷ len / 256 ∷ len ∷ [])
unfolding out_sdrq
out_sdrq-Writes userid channel len =
    join (one 100) (join (u16_be userid) (join (u16_be channel) (join (one 0x70) (u16_be len))))

unfoldable pub integer : ℕ → List ℕ
integer v = header_octets 2 2 ++ (v / 256 ∷ v ∷ [])

ber_out_integer-Writes : (v : ℕ) → Writes (ber_out_integer v) (integer v)
unfolding ber_out_integer integer
ber_out_integer-Writes v = join (ber_out_header-Writes 2 2) (u16_be v)

unfoldable pub domain_params : ℕ → ℕ → ℕ → ℕ → List ℕ
unfolding integer
domain_params a b c d =
    header_octets 0x30 32
    ++ (integer a
        ++ (integer b
            ++ (integer c
                ++ (integer 1 ++ (integer 0 ++ (integer 1 ++ (integer d ++ integer 2)))))))

mcs_out_domain_params-Writes :
    (a b c d : ℕ) → Writes (mcs_out_domain_params a b c d) (domain_params a b c d)
unfolding mcs_out_domain_params domain_params
mcs_out_domain_params-Writes a b c d =
    let i = ber_out_integer-Writes in
    join (ber_out_header-Writes 0x30 32) (
      join (i a)
        (join (i b) (join (i c) (join (i 1) (join (i 0) (join (i 1) (join (i d) (i 2))))))))

-- The octets behind the outer header.
unfoldable pub initial_rest : List ℕ → List ℕ
unfolding domain_params
initial_rest bs =
    header_octets 4 1
    ++ (1
        ∷ (header_octets 4 1
            ++ (1
                ∷ (header_octets 1 1
                    ++ (0xff
                        ∷ (domain_params 34 2 0 0xffff
                            ++ (domain_params 1 1 1 0x420
                                ++ (domain_params 0xffff 0xfc17 0xffff 0xffff
                                    ++ (header_octets 4 (length bs) ++ bs)))))))))

unfoldable pub initial_octets : List ℕ → List ℕ
initial_octets bs = header_octets 0x7f65 (initial_length bs) ++ initial_rest bs

pub out_connect_initial-Writes : (bs : List ℕ) → Writes (out_connect_initial bs) (initial_octets bs)
unfolding out_connect_initial initial_octets initial_rest
out_connect_initial-Writes bs =
    let h = ber_out_header-Writes in
    let p = mcs_out_domain_params-Writes in
    join (h 0x7f65 (initial_length bs)) (
      join (h 4 1) (
        join (one 1) (
          join (h 4 1) (
            join (one 1) (
              join (h 1 1) (
                join (one 0xff) (
                  join (p 34 2 0 0xffff) (
                    join (p 1 1 1 0x420) (
                      join (p 0xffff 0xfc17 0xffff 0xffff)
                        (join (h 4 (length bs)) (run bs)))))))))))

length-domain_params : (a b c d : ℕ) → length (domain_params a b c d) ≡ 34
unfolding domain_params tag_octets length_octets
length-domain_params a b c d = refl

pub length-initial_octets :
    (bs : List ℕ)
    → 128 ≤ length bs
    → (length (initial_rest bs) ≡ initial_length bs)
      × (length (initial_octets bs) ≡ initial_length bs + 5)
unfolding initial_octets initial_rest tag_octets length_octets
length-initial_octets bs h =
    let long : leb 0x80 (length bs) ≡ true = ground arith in
    let long' : leb 0x80 (initial_length bs) ≡ true = ground arith in
    rw (long, long') (omega arith, omega arith)
