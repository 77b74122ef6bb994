-- ===== src/Licence/Lengths.antt =====
-- source/licence.c: the messages are as long as they announce.
use rdesktopce_rdp.Prelude.{
  ℕ, ◌+◌, ◌/◌, ◌^◌, ◌<◌, ◌≡◌, refl, Bool, if◌then◌else◌, List, ◌∷◌, ◌++◌, length, length-append,
  replicate, arith,
}
use rdesktopce_rdp.Stream.{M, out_uint8s, ◌>>◌}
use rdesktopce_rdp.Stream.Emit.{Writes, join, one, u16_le, u32_le, run}
use rdesktopce_rdp.Licence.Wire.{
  out_head, out_part, out_random, present_length, out_present, request_length, out_request,
  out_authresp,
}

-- A writer of `n` octets, whatever they are.
record Emits (m : M (Unit {0})) (n : ℕ) : Type 0 where
  octets : List ℕ
  writes : Writes m octets
  size : length octets ≡ n

both : {m k : M (Unit {0})} {a b : ℕ} → Emits m a → Emits k b → Emits (m >> k) (a + b)
both p q = record {
  octets = p.octets ++ q.octets;
  writes = join p.writes q.writes;
  size = omega (arith, length-append p.octets q.octets, p.size, q.size);
}

emits : {m : M (Unit {0})} {octets : List ℕ} → Writes m octets → Emits m (length octets)
emits {octets} w = record { octets = octets; writes = w; size = refl }

part : (type : ℕ) (octets : List ℕ) → Emits (out_part type octets) (2 + (2 + length octets))
unfolding out_part
part type octets =
    both (emits (u16_le type)) (both (emits (u16_le (length octets))) (emits (run octets)))

random : (kind : ℕ) → Emits (out_random kind) (4 + (2 + (2 + (32 + (2 + (2 + (64 + 8)))))))
unfolding out_random out_uint8s
random kind = both (emits (u32_le 1)) (
    both (emits (u16_le 0)) (
      both (emits (u16_le kind)) (
        both (emits (run (replicate 32 0))) (
          both (emits (u16_le 2)) (
            both (emits (u16_le 72))
              (both (emits (run (replicate 64 0))) (emits (run (replicate 8 0)))))))))

-- A message that begins with its tag, the version and its length, the length of all of it.
pub record Framed (m : M (Unit {0})) (rdp5 : Bool) (tag len : ℕ) : Type 0 where
  pub body : List ℕ
  pub writes : Writes m (tag ∷ (if rdp5 then 3 else 2) ∷ len ∷ len / 256 ∷ body)
  pub size : length body + 4 ≡ len

headed :
    {k : M (Unit {0})} (rdp5 : Bool) (tag len n : ℕ)
    → Emits k n
    → n + 4 ≡ len
    → Framed (out_head rdp5 tag len >> k) rdp5 tag len
unfolding out_head
headed rdp5 tag len n e h = record {
  body = e.octets;
  writes = join (join (one tag) (join (one (if rdp5 then 3 else 2)) (u16_le len))) e.writes;
  size = omega (arith, e.size, h);
}

-- The three messages of the client, REQUEST, PRESENT and AUTHRESP, begin with their tag, the
-- version and their length, and are as long as that says; for names and a licence that fit 16
-- bits, and hardware ids, signatures and tokens of their sizes.
pub licence_messages-Framed :
    (rdp5 : Bool) (user host licence_data hwid signature token : List ℕ)
    → 128 + length user + length host < 2 ^ 16
    → 164 + length licence_data < 2 ^ 16
    → length hwid ≡ 20
    → length signature ≡ 16
    → length token ≡ 10
    → Framed (out_request rdp5 user host) rdp5 0x13 (request_length user host)
      × Framed
          (out_present rdp5 licence_data hwid signature)
          rdp5
          0x12
          (present_length licence_data)
      × Framed (out_authresp rdp5 token hwid signature) rdp5 0x15 58
unfolding out_request out_present out_authresp
licence_messages-Framed rdp5 user host licence_data hwid signature token h1 h2 h3 h4 h5 = (
  headed rdp5 0x13 (request_length user host) _
      (both (random 0xff01) (both (part 0x0f user) (part 0x10 host))) (omega arith),
  headed rdp5 0x12 (present_length licence_data) _
      (both (random 0x0201)
        (both (part 1 licence_data) (both (part 1 hwid) (emits (run signature)))))
      (omega arith),
  headed rdp5 0x15 58 _ (both (part 1 token) (both (part 1 hwid) (emits (run signature))))
      (omega arith),
)
