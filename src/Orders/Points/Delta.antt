-- ===== src/Orders/Points/Delta.antt =====
-- How a server writes a point of a polygon or polyline, and that source/orders.c reads it back.
use rdesktopce_rdp.Prelude.{
  on, ℕ, ◌+◌, ◌-◌, ◌*◌, ◌/◌, ◌%◌, ◌^◌, ◌<◌, ◌≤◌, ◌≡◌, ◌⊎◌, inl, inr, refl, ap, ◌∙◌, Bool, true,
  false, Option, none, some, List, [], ◌∷◌, ◌++◌, ltb, ◌==◌, if◌then◌else◌, length, length-append,
  get_elem?, arith, Bool-cases,
}
use rdesktopce_rdp.Stream.Read.{At}
use rdesktopce_rdp.Orders.Screen.{Point}
use rdesktopce_rdp.Orders.Points.{signed_bits, parse_delta, in_delta, in_point}
use rdesktopce_rdp.Orders.Coding.{At-left, At-right}

-- A difference in one octet, or in two.
abbrev pub delta_octets : ℕ → List ℕ
delta_octets v =
    if ltb v 64
    then v ∷ []
    else if ltb v (2 ^ 16 - 64)
    then (128 + v / 256 % 128) ∷ v % 256 ∷ []
    else (v % 64 + 64) ∷ []

-- What two octets can say: 14 bits and a sign.
abbrev pub IsDelta : ℕ → Type 0
IsDelta v = (v < 2 ^ 14) ⊎ (2 ^ 16 - 2 ^ 14 ≤ v) × (v < 2 ^ 16)

parse_one :
    (octets : List ℕ) (offset b : ℕ)
    → get_elem? octets offset ≡ some b
    → b < 128
    → parse_delta octets offset ≡ some (signed_bits b, offset + 1)
unfolding parse_delta
parse_one octets offset b h small = ground (arith, h)

parse_two :
    (octets : List ℕ) (offset b c : ℕ)
    → get_elem? octets offset ≡ some b
    → get_elem? octets (offset + 1) ≡ some c
    → 128 ≤ b
    → b < 256
    → parse_delta octets offset ≡ some ((signed_bits b * 256 + c) % 2 ^ 32, offset + 2)
unfolding parse_delta
parse_two octets offset b c h k large small = ground (arith, h, k)

abbrev wrapped : Option (ℕ × ℕ) → Option (ℕ × ℕ)
wrapped none = none
wrapped (some (v, offset)) = some (v % 2 ^ 16, offset)

in_delta-wrapped :
    (octets : List ℕ) (offset : ℕ)
    → in_delta false octets offset ≡ wrapped (parse_delta octets offset)
unfolding in_delta
in_delta-wrapped octets offset =
    elim (parse_delta octets offset)
      as (λ r.
        (elim r [ none ↦ none | some (v, offset') ↦ some (v % 2 ^ 16, offset') ]) ≡ wrapped r) [
          | none ↦ refl
          | some r ↦ refl
        ]

read_as : (a b i j : ℕ) → a ≡ b → i ≡ j → ◌≡◌ {A = Option (ℕ × ℕ)} (some (a, i)) (some (b, j))
read_as a b i j e f = rw (e, f) refl

one_octet :
    (octets : List ℕ) (offset b v : ℕ)
    → get_elem? octets offset ≡ some b
    → b < 128
    → signed_bits b % 2 ^ 16 ≡ v
    → in_delta false octets offset ≡ some (v, offset + 1)
one_octet octets offset b v h small e =
    in_delta-wrapped octets offset
    ∙ ap wrapped (parse_one octets offset b h small)
    ∙ read_as _ _ _ _ e refl

two_octets :
    (octets : List ℕ) (offset b c v : ℕ)
    → get_elem? octets offset ≡ some b
    → get_elem? octets (offset + 1) ≡ some c
    → 128 ≤ b
    → b < 256
    → (signed_bits b * 256 + c) % 2 ^ 32 % 2 ^ 16 ≡ v
    → in_delta false octets offset ≡ some (v, offset + 2)
two_octets octets offset b c v h k large small e =
    in_delta-wrapped octets offset
    ∙ ap wrapped (parse_two octets offset b c h k large small)
    ∙ read_as _ _ _ _ e refl

two_value :
    (v : ℕ) → IsDelta v → (signed_bits (128 + v / 256 % 128) * 256 + v % 256) % 2 ^ 32 % 2 ^ 16 ≡ v
two_value v (inl h) = ground arith
two_value v (inr (h, k)) = ground arith

-- The three forms of a difference.
record Form (v : ℕ) (bs : List ℕ) : Type 0 where
  read :
      (octets : List ℕ) (offset : ℕ)
      → At octets offset bs
      → in_delta false octets offset ≡ some (v, offset + length bs)

form : (v : ℕ) → IsDelta v → Form v (delta_octets v)
form v h = elim (Bool-cases (ltb v 64)) [
  | inl e ↦ rw e (record {
    read = λ octets offset at.
        one_octet octets offset v v at.0 (ground (arith, e)) (ground (arith, e));
  })
  | inr e ↦ elim (Bool-cases (ltb v (2 ^ 16 - 64))) [
    | inl f ↦
        rw (e, f)
          (record {
            read = λ octets offset at.
                two_octets octets offset (128 + v / 256 % 128) (v % 256) v at.0 at.1.0 (omega arith)
                  (omega arith) (two_value v h);
          })
    | inr f ↦
        rw (e, f)
          (record {
            read = λ octets offset at.
                one_octet octets offset (v % 64 + 64) v at.0 (omega arith)
                  (ground (arith, e, f, h));
          })
  ]
]

-- A coordinate of a point, which is left out if it is 0.
abbrev pub coord_part : ℕ → List ℕ
coord_part v = if v == 0 then [] else delta_octets v

abbrev pub point_octets : Point → List ℕ
point_octets p = coord_part p.x ++ coord_part p.y

-- The two flags of a point.
abbrev pub pair : Point → ℕ
pair p = (if p.x == 0 then 2 else 0) + (if p.y == 0 then 1 else 0)

abbrev pub IsPoint : Point → Type 0
IsPoint p = IsDelta p.x × IsDelta p.y

coord_part_lem :
    (octets : List ℕ) (offset v : ℕ) (b : Bool)
    → (v == 0) ≡ b
    → IsDelta v
    → At octets offset (if b then [] else delta_octets v)
    → in_delta b octets offset ≡ some (v, offset + length (if b then [] else delta_octets v))
unfolding in_delta
coord_part_lem octets offset v true e h at = read_as _ _ _ _ (ground (arith, e)) (omega arith)
coord_part_lem octets offset v false e h at = (form v h).read octets offset at

flag_x : (p : Point) (r : ℕ) → r < 64 → on (pair p * 64 + r) 0x80 ≡ (p.x == 0)
flag_x p r h = ground arith

flag_y : (p : Point) (r : ℕ) → r < 64 → on (pair p * 64 + r) 0x40 ≡ (p.y == 0)
flag_y p r h = ground arith

point_of :
    (f offset o o' x y : ℕ) (octets : List ℕ) (bx by : Bool)
    → on f 0x80 ≡ bx
    → on f 0x40 ≡ by
    → in_delta bx octets offset ≡ some (x, o)
    → in_delta by octets o ≡ some (y, o')
    → in_point f octets offset ≡ some (record { x = x; y = y }, o')
unfolding in_point
point_of f offset o o' x y octets bx by ex ey hx hy =
    let kx : in_delta (on f 0x80) octets offset ≡ some (x, o) =
      ap (λ b. in_delta b octets offset) ex ∙ hx in
    let ky : in_delta (on f 0x40) octets o ≡ some (y, o') = ap (λ b. in_delta b octets o) ey ∙ hy in
    rw (kx, ky, in_point) refl

pub in_point_lem :
    (p : Point) (r : ℕ) (octets : List ℕ) (offset : ℕ)
    → r < 64
    → IsPoint p
    → At octets offset (point_octets p)
    → in_point (pair p * 64 + r) octets offset ≡ some (p, offset + length (point_octets p))
in_point_lem p r octets offset small (hx, hy) at =
    let x = coord_part p.x in
    let y = coord_part p.y in
    let ex = coord_part_lem octets offset p.x (p.x == 0) refl hx (At-left octets x y offset at) in
    let ey =
      coord_part_lem octets (offset + length x) p.y (p.y == 0) refl hy
        (At-right octets x y offset (offset + length x) refl at) in
    point_of (pair p * 64 + r) offset (offset + length x) (offset + length x + length y) p.x p.y
      octets (p.x == 0) (p.y == 0) (flag_x p r small) (flag_y p r small) ex ey
    ∙ ap (λ k. some (p, k)) (omega (arith, length-append x y))
