-- ===== src/Orders/Coding.antt =====
-- How the octets of a field say what its reader in source/orders.c gives.
pub mod Parts
pub mod Blt
pub mod Figures
use rdesktopce_rdp.Prelude.{
  ℕ, zero, suc, ◌+◌, ◌-◌, ◌*◌, ◌/◌, ◌%◌, ◌^◌, ◌<◌, ◌≤◌, ◌≡◌, ◌⊎◌, inl, inr, refl, sym, ap, subst,
  ◌∙◌, Bool, true, false, Option, none, some, List, [], ◌∷◌, ◌++◌, ltb, if◌then◌else◌, length,
  length-append, append_assoc, arith,
}
use rdesktopce_rdp.Stream.{
  Stream, M, at, pure, bind, ◌>>=◌, ◌>>◌, in_uint8, in_uint8a, in_uint16_le, in_uint32_le,
}
use rdesktopce_rdp.Stream.Read.{At, in_uint8_lem, in_uint8a_lem, in_uint16_le_lem, in_uint32_le_lem}
use rdesktopce_rdp.Orders.Fields.{field, in_bits, sint8, rdp_in_coord, rdp_in_colour}
pub use rdesktopce_rdp.Stream.Takes.{
  Takes, At-left, At-right, no_more, followed, made, octet, octets, word_octets, word, dword_octets,
  dword, read_at,
}

abbrev pub colour_octets : ℕ → List ℕ
colour_octets v = v % 256 ∷ v / 256 % 256 ∷ v / 2 ^ 16 ∷ []

pub colour : (v : ℕ) → Takes rdp_in_colour (colour_octets v) v
unfolding rdp_in_colour
colour v = record {
  run = λ s h.
      rw
        (
          in_uint8_lem s (v % 256) h.0,
          in_uint8_lem (at s s.bytes (s.p + 1)) (v / 256 % 256) h.1.0,
          in_uint8_lem (at s s.bytes (s.p + 1 + 1)) (v / 2 ^ 16) h.1.1.0,
        )
        (read_at s _ _ _ _ (omega arith) (omega arith));
}

-- A coordinate, or its difference from the one before in an octet.
abbrev pub coord_octets : Bool → ℕ → ℕ → List ℕ
coord_octets true old new = (new + 2 ^ 16 - old) % 256 ∷ []
coord_octets false old new = word_octets new

-- With a difference, the coordinates are at most 127 apart upwards and 128 downwards, around 2 ^ 16.
abbrev pub Near : Bool → ℕ → ℕ → Type 0
Near true old new =
    (old < 2 ^ 16)
    × (new < 2 ^ 16)
    × (((new + 2 ^ 16 - old) % 2 ^ 16 < 128) ⊎ (2 ^ 16 - 128 ≤ (new + 2 ^ 16 - old) % 2 ^ 16))
Near false old new = Unit {0}

near_lem :
    (old new : ℕ) → Near true old new → (old + sint8 ((new + 2 ^ 16 - old) % 256)) % 2 ^ 16 ≡ new
near_lem old new (a, b, inl c) = ground arith
near_lem old new (a, b, inr c) = ground arith

pub coord :
    (delta : Bool) (old new : ℕ)
    → Near delta old new
    → Takes (rdp_in_coord delta old) (coord_octets delta old new) new
unfolding rdp_in_coord
coord false old new h = word new
coord true old new h = record {
  run = λ s k.
      rw (in_uint8_lem s ((new + 2 ^ 16 - old) % 256) k.0)
        (ap (λ u. some (u, at s s.bytes (s.p + 1))) (near_lem old new h));
}

-- The octets of a field that may be left out, where it keeps its value.
abbrev pub shown : Bool → List ℕ → List ℕ
shown true bs = bs
shown false bs = []

abbrev pub Shown : {A : Type 0} → Bool → Type 0 → A → A → Type 0
Shown true P old new = P
Shown false P old new = new ≡ old

pub optional :
    {A : Type 0} {m : M A} {bs : List ℕ} (b : Bool) (P : Type 0) (old new : A)
    → (P → Takes m bs new)
    → Shown b P old new
    → Takes (field b m old) (shown b bs) new
optional true P old new t h = t h
optional {m} {bs} false P old new t h =
    subst (λ a. Takes (field false m old) [] a) (sym h) (no_more old)
