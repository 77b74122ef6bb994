-- ===== src/Orders/Points.antt =====
-- source/orders.c: the points of a polygon or polyline, as differences with two flags for each.
pub mod Delta
pub mod RoundTrip
use rdesktopce_rdp.Prelude.{
  on, ℕ, zero, suc, ◌+◌, ◌-◌, ◌*◌, ◌/◌, ◌%◌, ◌^◌, Bool, true, false, Option, none, some, List, [],
  ◌∷◌, ltb, ◌==◌, if◌then◌else◌, get_elem?, length, min,
}
use rdesktopce_rdp.Orders.Screen.{Point}

-- The low six bits of an octet as an int with its sign bit, 0x40.
abbrev pub signed_bits : ℕ → ℕ
signed_bits v = if on v 0x40 then v % 64 + (2 ^ 32 - 2 ^ 6) else v % 64

-- The int, and the offset behind it. A read behind the array is a fault.
unfoldable pub parse_delta : List ℕ → ℕ → Option (ℕ × ℕ)
parse_delta buffer offset = elim (get_elem? buffer offset) [
  | none ↦ none
  | some v ↦
      if on v 0x80
      then elim (get_elem? buffer (offset + 1)) [
        | none ↦ none
        | some b ↦ some ((signed_bits v * 256 + b) % 2 ^ 32, offset + 2)
      ]
      else some (signed_bits v, offset + 1)
]

-- A coordinate of a point: 0 if its flag is set.
unfoldable pub in_delta : Bool → List ℕ → ℕ → Option (ℕ × ℕ)
unfolding parse_delta
in_delta true octets offset = some (0, offset)
in_delta false octets offset = elim (parse_delta octets offset) [
  | none ↦ none
  | some (v, offset') ↦ some (v % 2 ^ 16, offset')
]

unfoldable pub in_point : ℕ → List ℕ → ℕ → Option (Point × ℕ)
in_point flags octets offset = elim (in_delta (on flags 0x80) octets offset) [
  | none ↦ none
  | some (x, offset') ↦ elim (in_delta (on flags 0x40) octets offset') [
    | none ↦ none
    | some (y, offset'') ↦ some (record { x = x; y = y }, offset'')
  ]
]

-- `if ((next - 1) % 4 == 0) flags = data[index++];`: the flags, and the index.
unfoldable pub in_flags : ℕ → List ℕ → ℕ → ℕ → Option (ℕ × ℕ)
in_flags k octets flags index =
    if k % 4 == 0
    then elim (get_elem? octets index) [ none ↦ none | some f ↦ some (f, index + 1) ]
    else some (flags, index)

-- The loop at `next = k + 1`, with `n` rounds left at most: the points from there on that it reads.
unfoldable pub in_points : ℕ → ℕ → List ℕ → ℕ → ℕ → ℕ → ℕ → Option (List Point)
in_points zero k octets datasize flags index offset = some []
in_points (suc n) k octets datasize flags index offset =
    if ltb offset datasize
    then elim (in_flags k octets flags index) [
      | none ↦ none
      | some (flags', index') ↦ elim (in_point flags' octets offset) [
        | none ↦ none
        | some (point, offset') ↦
            elim (in_points n (k + 1) octets datasize (flags' * 4 % 256) index' offset') [
              | none ↦ none
              | some points ↦ some (point ∷ points)
            ]
      ]
    ]
    else some []

-- The points behind the first, or no list if there are too few (`next - 1 != npoints`). `limit` is
-- the greatest `next`.
unfoldable pub delta_points : ℕ → ℕ → List ℕ → ℕ → Option (Option (List Point))
unfolding in_points
delta_points limit npoints octets datasize =
    elim (in_points (min npoints limit) 0 octets datasize 0 0 ((npoints - 1) / 4 + 1)) [
      | none ↦ none
      | some points ↦ some (if length points == npoints then some points else none)
    ]
