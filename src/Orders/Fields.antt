-- ===== src/Orders/Fields.antt =====
-- source/orders.c: the readers that the orders share.
use rdesktopce_rdp.Prelude.{
  on, ℕ, zero, suc, ◌+◌, ◌-◌, ◌*◌, ◌%◌, ◌^◌, Bool, true, false, List, [], ◌∷◌, ◌++◌, ltb, ◌&&◌, not,
  if◌then◌else◌, drop,
}
use rdesktopce_rdp.Stream.{M, pure, ◌>>=◌, in_uint8, in_uint8a, in_uint16_le}
use rdesktopce_rdp.Orders.{Bounds, Pen, Brush}

-- `if (present & mask) ...`, where `a` stays if the field is not there.
abbrev pub field : {A : Type 0} → Bool → M A → A → M A
field true m a = m
field false m a = pure a

-- How many octets say which fields are present: `size--` and `size -= 2` on an int.
unfoldable pub present_size : ℕ → ℕ → ℕ
present_size flags size =
    let small = if on flags 0x40 then size - 1 else size in
    if on flags 0x80 then small - 2 else small

-- Octet `i` and those behind it; what is read so far has no bit from octet `i` on, so `|=` adds.
unfoldable pub in_bits : ℕ → ℕ → M ℕ
unfolding in_uint8
in_bits zero weight = pure 0
in_bits (suc n) weight = do
  bits ← in_uint8
  rest ← in_bits n (weight * 256)
  pure (bits * weight + rest)

unfoldable pub rdp_in_present : ℕ → ℕ → M ℕ
unfolding in_bits present_size
rdp_in_present flags size = in_bits (present_size flags size) 1

-- An octet as an sint8, in 16 bits.
abbrev pub sint8 : ℕ → ℕ
sint8 b = if ltb b 128 then b else b + (2 ^ 16 - 2 ^ 8)

unfoldable pub rdp_in_coord : Bool → ℕ → M ℕ
unfolding in_uint8 in_uint16_le
rdp_in_coord true coord = do change ← in_uint8; pure ((coord + sint8 change) % 2 ^ 16)
rdp_in_coord false coord = in_uint16_le

-- `|` joins octets that share no bit.
unfoldable pub rdp_in_colour : M ℕ
unfolding in_uint8
rdp_in_colour = do i ← in_uint8; j ← in_uint8; k ← in_uint8; pure (i + j * 2 ^ 8 + k * 2 ^ 16)

-- A coordinate of the bounds: absolute, or relative, or not there.
unfoldable pub in_bound : Bool → Bool → ℕ → M ℕ
unfolding rdp_in_coord
in_bound absolute delta coord = field absolute (rdp_in_coord false coord) coord >>= λ c.
    field (not absolute && delta) (rdp_in_coord true c) c

unfoldable pub rdp_parse_bounds : Bounds → M Bounds
unfolding in_bound
rdp_parse_bounds b = do
  present ← in_uint8
  left ← in_bound (on present 1) (on present 16) b.left
  top ← in_bound (on present 2) (on present 32) b.top
  right ← in_bound (on present 4) (on present 64) b.right
  bottom ← in_bound (on present 8) (on present 128) b.bottom
  pure (record { left = left; top = top; right = right; bottom = bottom })

-- The callers of this and of the next do not use `s_check`.
unfoldable pub rdp_parse_pen : ℕ → Pen → M Pen
unfolding rdp_in_colour
rdp_parse_pen present pen = do
  style ← field (on present 1) in_uint8 pen.style
  width ← field (on present 2) in_uint8 pen.width
  colour ← field (on present 4) rdp_in_colour pen.colour
  pure (record { style = style; width = width; colour = colour })

-- `pattern[0]` and the seven others, which the array has.
abbrev pub first_octet : List ℕ → ℕ
first_octet [] = 0
first_octet (b ∷ bs) = b

unfoldable pub rdp_parse_brush : ℕ → Brush → M Brush
unfolding in_uint8a
rdp_parse_brush present brush = do
  xorigin ← field (on present 1) in_uint8 brush.xorigin
  yorigin ← field (on present 2) in_uint8 brush.yorigin
  style ← field (on present 4) in_uint8 brush.style
  head ← field (on present 8) in_uint8 (first_octet brush.pattern)
  tail ← field (on present 16) (in_uint8a 7) (drop 1 brush.pattern)
  pure (record {
    xorigin = xorigin;
    yorigin = yorigin;
    style = style;
    pattern = head ∷ tail;
    bd = brush.bd;
  })

-- `in_uint8(s, n); in_uint8a(s, a, n)` into an array that keeps what is behind.
unfoldable pub in_sized : List ℕ → M (ℕ × List ℕ)
unfolding in_uint8a
in_sized a = do n ← in_uint8; octets ← in_uint8a n; pure (n, octets ++ drop n a)
