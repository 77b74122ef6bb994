-- ===== src/Orders/Points/RoundTrip.antt =====
-- The points of a polygon or polyline as a server writes them, read back by source/orders.c.
use rdesktopce_rdp.Prelude.{
  ℕ, suc, ◌+◌, ◌-◌, ◌*◌, ◌/◌, ◌%◌, ◌<◌, ◌≤◌, ◌≡◌, ◌≢◌, refl, sym, ap, ◌∙◌, true, some, List, [],
  ◌∷◌, ◌++◌, ltb, ◌==◌, length, length-append, get_elem?, arith, min,
}
use rdesktopce_rdp.Stream.Read.{At, At-append}
use rdesktopce_rdp.Orders.Screen.{Point}
use rdesktopce_rdp.Orders.Points.{in_flags, in_points, delta_points}
use rdesktopce_rdp.Orders.Coding.{At-left, At-right}
use rdesktopce_rdp.Orders.Points.Delta.{point_octets, pair, IsPoint, in_point_lem}

-- The flags of four points in an octet, from the upper bits on.
abbrev pub flag_octets : List Point → List ℕ
flag_octets [] = []
flag_octets (a ∷ []) = pair a * 64 ∷ []
flag_octets (a ∷ b ∷ []) = (pair a * 64 + pair b * 16) ∷ []
flag_octets (a ∷ b ∷ c ∷ []) = (pair a * 64 + pair b * 16 + pair c * 4) ∷ []
flag_octets (a ∷ b ∷ c ∷ d ∷ ps) =
    (pair a * 64 + pair b * 16 + pair c * 4 + pair d) ∷ flag_octets ps

abbrev pub points_octets : List Point → List ℕ
points_octets [] = []
points_octets (p ∷ ps) = point_octets p ++ points_octets ps

-- Points that two octets can say, the last of which is somewhere else than the one before.
abbrev pub CanSay : List Point → Type 0
CanSay [] = Unit {0}
CanSay (p ∷ []) = IsPoint p × (0 < length (point_octets p))
CanSay (p ∷ q ∷ ps) = IsPoint p × CanSay (q ∷ ps)

-- One round of the loop.
round_lem :
    (p : Point) (r n k size flags index index' offset : ℕ) (octets : List ℕ) (ps : List Point)
    → r < 64
    → IsPoint p
    → offset < size
    → At octets offset (point_octets p)
    → in_flags k octets flags index ≡ some (pair p * 64 + r, index')
    → in_points n
        (k + 1)
        octets
        size
        ((pair p * 64 + r) * 4 % 256)
        index'
        (offset + length (point_octets p))
      ≡ some ps
    → in_points (suc n) k octets size flags index offset ≡ some (p ∷ ps)
unfolding in_points
round_lem p r n k size flags index index' offset octets ps small h room at e f =
    let room_lem : ltb offset size ≡ true = ground arith in
    rw (room_lem, e, in_point_lem p r octets offset small h at, f, in_points) refl

pair-lt : (p : Point) → pair p < 4
pair-lt p = ground arith

module _ (octets : List ℕ) (size : ℕ) where
  -- The octets of the points stand at `offset`, and end inside the data.
  record Fits (ps : List Point) (offset : ℕ) : Type 0 where
    sayable : CanSay ps
    stand : At octets offset (points_octets ps)
    room : offset + length (points_octets ps) ≤ size

  CanSay-tail : (p : Point) (ps : List Point) → CanSay (p ∷ ps) → IsPoint p × CanSay ps
  CanSay-tail p [] (h, _) = (h, tt)
  CanSay-tail p (q ∷ ps) (h, k) = (h, k)

  some_octets :
      (p : Point) (ps : List Point) → CanSay (p ∷ ps) → 0 < length (points_octets (p ∷ ps))
  some_octets p [] (_, h) = omega (arith, length-append (point_octets p) [])
  some_octets p (q ∷ ps) (_, k) =
      omega (arith, some_octets q ps k, length-append (point_octets p) (points_octets (q ∷ ps)))

  Fits-tail :
      (p : Point) (ps : List Point) (offset : ℕ)
      → Fits (p ∷ ps) offset
      → Fits ps (offset + length (point_octets p))
  Fits-tail p ps offset f = record {
    sayable = (CanSay-tail p ps f.sayable).1;
    stand =
        At-right octets (point_octets p) (points_octets ps) offset
          (offset + length (point_octets p)) refl f.stand;
    room = omega (arith, f.room, length-append (point_octets p) (points_octets ps));
  }

  -- A round at a place where the flags are known, before the others of their octet.
  round_at :
      (p : Point) (ps : List Point) (r k flags index index' offset : ℕ)
      → Fits (p ∷ ps) offset
      → r < 64
      → in_flags k octets flags index ≡ some (pair p * 64 + r, index')
      → ((offset' : ℕ)
          → Fits ps offset'
          → in_points (length ps) (k + 1) octets size (r * 4) index' offset' ≡ some ps)
      → in_points (length (p ∷ ps)) k octets size flags index offset ≡ some (p ∷ ps)
  round_at p ps r k flags index index' offset f small e rest =
      let shifted : (pair p * 64 + r) * 4 % 256 ≡ r * 4 = omega arith in
      round_lem p r (length ps) k size flags index index' offset octets ps small
        (CanSay-tail p ps f.sayable).0 (omega (arith, f.room, some_octets p ps f.sayable))
        (At-left octets (point_octets p) (points_octets ps) offset f.stand) e
        (ap
            (λ v.
              in_points (length ps) (k + 1) octets size v index' (offset + length (point_octets p)))
            shifted
          ∙ rest (offset + length (point_octets p)) (Fits-tail p ps offset f))

  first_flags :
      (v k flags index : ℕ)
      → k % 4 ≡ 0
      → get_elem? octets index ≡ some v
      → in_flags k octets flags index ≡ some (v, index + 1)
  unfolding in_flags
  first_flags v k flags index h e = ground (arith, e)

  later_flags :
      (v k flags index : ℕ)
      → k % 4 ≢ 0
      → flags ≡ v
      → in_flags k octets flags index ≡ some (v, index)
  unfolding in_flags
  later_flags v k flags index h e = ground (arith, e)

  -- The points of an octet of flags behind its first, and then the other points.
  module _ (ps : List Point) (index : ℕ)
      (others : (k flags offset : ℕ)
        → k % 4 ≡ 0
        → Fits ps offset
        → in_points (length ps) k octets size flags index offset ≡ some ps) where
    last_one :
        (d : Point) (k flags offset : ℕ)
        → k % 4 ≡ 3
        → flags ≡ pair d * 64
        → Fits (d ∷ ps) offset
        → in_points (length (d ∷ ps)) k octets size flags index offset ≡ some (d ∷ ps)
    last_one d k flags offset h e f =
        round_at d ps 0 k flags index index offset f (omega arith)
          (later_flags _ k flags index (omega arith) (omega arith))
          (λ offset' g. others (k + 1) 0 offset' (omega arith) g)

    last_two :
        (c d : Point) (k flags offset : ℕ)
        → k % 4 ≡ 2
        → flags ≡ pair c * 64 + pair d * 16
        → Fits (c ∷ d ∷ ps) offset
        → in_points (length (c ∷ d ∷ ps)) k octets size flags index offset ≡ some (c ∷ d ∷ ps)
    last_two c d k flags offset h e f =
        round_at c (d ∷ ps) (pair d * 16) k flags index index offset f (ground arith)
          (later_flags _ k flags index (omega arith) e)
          (λ offset' g. last_one d (k + 1) _ offset' (omega arith) (omega arith) g)

    last_three :
        (b c d : Point) (k flags offset : ℕ)
        → k % 4 ≡ 1
        → flags ≡ pair b * 64 + (pair c * 16 + pair d * 4)
        → Fits (b ∷ c ∷ d ∷ ps) offset
        → in_points (length (b ∷ c ∷ d ∷ ps)) k octets size flags index offset
          ≡ some (b ∷ c ∷ d ∷ ps)
    last_three b c d k flags offset h e f =
        round_at b (c ∷ d ∷ ps) (pair c * 16 + pair d * 4) k flags index index offset f
          (ground arith) (later_flags _ k flags index (omega arith) e)
          (λ offset' g. last_two c d (k + 1) _ offset' (omega arith) (omega arith) g)

  ended : (k flags index offset : ℕ) → in_points 0 k octets size flags index offset ≡ some []
  unfolding in_points
  ended k flags index offset = refl

  final_one :
      (b : Point) (k flags index offset : ℕ)
      → k % 4 ≢ 0
      → flags ≡ pair b * 64
      → Fits (b ∷ []) offset
      → in_points 1 k octets size flags index offset ≡ some (b ∷ [])
  final_one b k flags index offset h e f =
      round_at b [] 0 k flags index index offset f (omega arith)
        (later_flags _ k flags index h (omega arith)) (λ offset' g. ended (k + 1) 0 index offset')

  final_two :
      (b c : Point) (k flags index offset : ℕ)
      → k % 4 ≡ 1
      → flags ≡ pair b * 64 + pair c * 16
      → Fits (b ∷ c ∷ []) offset
      → in_points 2 k octets size flags index offset ≡ some (b ∷ c ∷ [])
  final_two b c k flags index offset h e f =
      round_at b (c ∷ []) (pair c * 16) k flags index index offset f (ground arith)
        (later_flags _ k flags index (omega arith) e)
        (λ offset' g. final_one c (k + 1) _ index offset' (omega arith) (omega arith) g)

  in_points_lem :
      (ps : List Point) (k flags index offset : ℕ)
      → k % 4 ≡ 0
      → At octets index (flag_octets ps)
      → Fits ps offset
      → in_points (length ps) k octets size flags index offset ≡ some ps
  in_points_lem [] k flags index offset h at f = ended k flags index offset
  in_points_lem (a ∷ []) k flags index offset h at f =
      round_at a [] 0 k flags index (index + 1) offset f (omega arith)
        (first_flags _ k flags index h (at.0 ∙ ap some (omega arith)))
        (λ offset' g. ended (k + 1) 0 (index + 1) offset')
  in_points_lem (a ∷ b ∷ []) k flags index offset h at f =
      round_at a (b ∷ []) (pair b * 16) k flags index (index + 1) offset f (ground arith)
        (first_flags _ k flags index h at.0)
        (λ offset' g. final_one b (k + 1) _ (index + 1) offset' (omega arith) (omega arith) g)
  in_points_lem (a ∷ b ∷ c ∷ []) k flags index offset h at f =
      round_at a (b ∷ c ∷ []) (pair b * 16 + pair c * 4) k flags index (index + 1) offset f
        (ground arith) (first_flags _ k flags index h (at.0 ∙ ap some (omega arith)))
        (λ offset' g. final_two b c (k + 1) _ (index + 1) offset' (omega arith) (omega arith) g)
  in_points_lem (a ∷ b ∷ c ∷ d ∷ ps) k flags index offset h at f =
      round_at a (b ∷ c ∷ d ∷ ps) (pair b * 16 + pair c * 4 + pair d) k flags index (index + 1)
        offset f (omega (arith, pair-lt b, pair-lt c, pair-lt d))
        (first_flags _ k flags index h (at.0 ∙ ap some (omega arith)))
        (λ offset' g.
          last_three ps (index + 1)
            (λ k' flags' offset'' h' f'. in_points_lem ps k' flags' (index + 1) offset'' h' at.1 f')
            b c d (k + 1) _ offset' (omega arith) (omega arith) g)

-- Where the differences start.
length-flag_octets :
    (p : Point) (ps : List Point) → length (flag_octets (p ∷ ps)) ≡ length ps / 4 + 1
length-flag_octets a [] = omega arith
length-flag_octets a (b ∷ []) = omega arith
length-flag_octets a (b ∷ c ∷ []) = omega arith
length-flag_octets a (b ∷ c ∷ d ∷ []) = omega arith
length-flag_octets a (b ∷ c ∷ d ∷ e ∷ ps) = omega (arith, length-flag_octets e ps)

-- Points that a server codes with two flags each and signed differences of 14 bits, one octet
-- where it is small and none where it is zero, are read back: up to the limit of the loop, if the
-- last point is not a zero difference.
pub delta_points-points_octets :
    (p : Point) (ps : List Point) (limit : ℕ) (rest : List ℕ)
    → CanSay (p ∷ ps)
    → length (p ∷ ps) ≤ limit
    → delta_points limit
        (length (p ∷ ps))
        (flag_octets (p ∷ ps) ++ (points_octets (p ∷ ps) ++ rest))
        (length (flag_octets (p ∷ ps)) + length (points_octets (p ∷ ps)))
      ≡ some (some (p ∷ ps))
unfolding delta_points
delta_points-points_octets p ps limit rest h enough =
    let flags = flag_octets (p ∷ ps) in
    let deltas = points_octets (p ∷ ps) in
    let octets = flags ++ (deltas ++ rest) in
    let start : length flags ≡ (length (p ∷ ps) - 1) / 4 + 1 =
      omega (arith, length-flag_octets p ps) in
    let limit_lem : min (length (p ∷ ps)) limit ≡ length (p ∷ ps) = omega arith in
    let count : (length (p ∷ ps) == length (p ∷ ps)) ≡ true = ground arith in
    let read =
      in_points_lem octets (length flags + length deltas) (p ∷ ps) 0 0 0 (length flags) refl
        (At-append [] flags (deltas ++ rest) 0 refl)
        (record {
          sayable = h;
          stand = At-append flags deltas rest (length flags) refl;
          room = omega arith;
        }) in
    let read' =
      ap
        (λ n.
          in_points n 0 octets (length flags + length deltas) 0 0 ((length (p ∷ ps) - 1) / 4 + 1))
        limit_lem
      ∙ ap (λ o. in_points (length (p ∷ ps)) 0 octets (length flags + length deltas) 0 0 o)
          (sym start)
      ∙ read in
    rw (read', count, delta_points) refl
