-- ===== src/Orders/Tests.antt =====
-- The theorems on source/orders.c at small sessions, and runs.
use rdesktopce_rdp.Prelude.{
  ℕ, ◌≡◌, refl, inl, inr, ◌⊎◌, ◌+◌, ◌^◌, false, some, none, List, [], ◌∷◌, arith,
}
use rdesktopce_rdp.Stream.{in_uint16_le}
use rdesktopce_rdp.Stream.Read.{At-append}
use rdesktopce_rdp.Samples.{blank}
use rdesktopce_rdp.Cache.Bitmap.{Bank}
use rdesktopce_rdp.Orders.{DestbltOrder}
use rdesktopce_rdp.Orders.Screen.{
  Screen, Platform, Point, ui_destblt, ui_set_clip, ui_reset_clip, on_stream, gets, set_orders,
  call,
}
use rdesktopce_rdp.Orders.Draw.{process_destblt}
use rdesktopce_rdp.Orders.Blt.{in_destblt}
use rdesktopce_rdp.Orders.Start.{fresh_state}
use rdesktopce_rdp.Orders.Process.{process_orders, process_secondary_order, handler}
use rdesktopce_rdp.Orders.Clip.{clipped}
use rdesktopce_rdp.Orders.Rounds.{process_secondary_order_lem}
use rdesktopce_rdp.Orders.Balance.{process_orders-clipped}
use rdesktopce_rdp.Orders.Points.{delta_points}
use rdesktopce_rdp.Orders.Points.RoundTrip.{delta_points-points_octets}
use rdesktopce_rdp.Orders.Session.{Item}
use rdesktopce_rdp.Orders.Session.Kinds.{destblt_coded}

abbrev silent : Platform
silent = record { handle = λ cs. none; stored = λ cs id idx. none }

abbrev empty_bank : Bank
empty_bank = record {
  persistent = false;
  cells = λ i. record { bitmap = none; previous = none; next = none };
  lru = none;
  mru = none;
  count = 0;
  volatile = none;
}

abbrev screen : List ℕ → Screen
screen octets = record {
  stream = blank octets;
  orders = fresh_state;
  version = 5;
  banks = λ i. empty_bank;
  fonts = λ f c. record { offset = 0; baseline = 0; width = 0; height = 0; pixmap = none };
  brushes = λ t i. record { colour_code = 0; data_size = 0; pattern_octets = none };
  calls = [];
}

abbrev square : DestbltOrder
square = record { x = 10; y = 65535; cx = 8; cy = 8; opcode = 0xff }

-- A square, and the same two pixels further to the left, by a difference and without its type.
abbrev two_squares : List (Item silent)
unfolding destblt_coded
two_squares =
    record { coded = destblt_coded silent; flags = 0x09; present = 0x1f; order = square }
    ∷ record {
      coded = destblt_coded silent;
      flags = 0x11;
      present = 0x01;
      order = record square { x = 8 };
    }
    ∷ []

abbrev two_squares_octets : List ℕ
two_squares_octets =
    0x09 ∷ 0 ∷ 0x1f ∷ 10 ∷ 0 ∷ 255 ∷ 255 ∷ 8 ∷ 0 ∷ 8 ∷ 0 ∷ 0xff ∷ 0x11 ∷ 0x01 ∷ 254 ∷ []

abbrev zigzag : List Point
zigzag = record { x = 1; y = 0 } ∷ record { x = 65535; y = 200 } ∷ record { x = 0; y = 65000 } ∷ []

delta_points-points_octets_example :
    delta_points 255 3 (0x48 ∷ 1 ∷ 0x7f ∷ 128 ∷ 200 ∷ 253 ∷ 232 ∷ []) 7 ≡ some (some zigzag)
delta_points-points_octets_example =
    delta_points-points_octets (record { x = 1; y = 0 })
      (record { x = 65535; y = 200 } ∷ record { x = 0; y = 65000 } ∷ []) 255 []
      (
        (inl (omega arith), inl (omega arith)),
        (
          (inr (omega arith, omega arith), inl (omega arith)),
          ((inl (omega arith), inr (omega arith, omega arith)), omega arith),
        ),
      )
      (omega arith)

-- An order with the bounds of the last one.
abbrev bounded : List ℕ
bounded = 0x2d ∷ 0 ∷ 0 ∷ []

abbrev after_bounded : Screen
after_bounded = record (screen bounded) {
  stream = record (blank bounded) { p = 3 };
  orders = record fresh_state { order_type = 0 };
  calls = ui_set_clip 0 0 1 1 ∷ ui_destblt 0 0 0 0 0 ∷ ui_reset_clip ∷ [];
}

process_orders-clipped_example : (clipped after_bounded ≡ false) ⊎ (handler silent 0 ≡ none)
unfolding process_orders on_stream gets set_orders call process_destblt in_destblt
process_orders-clipped_example =
    process_orders-clipped silent 1 (screen bounded) after_bounded refl refl

-- An unknown type leaves the clipping set.
unknown_type :
    process_orders silent 1 (screen (0x2d ∷ 99 ∷ 0 ∷ []))
    ≡ some (
      tt,
      record (screen (0x2d ∷ 99 ∷ 0 ∷ [])) {
        stream = record (blank (0x2d ∷ 99 ∷ 0 ∷ [])) { p = 3 };
        orders = record fresh_state { order_type = 99 };
        calls = ui_set_clip 0 0 1 1 ∷ [];
      },
    )
unfolding process_orders on_stream gets set_orders call process_destblt in_destblt
unknown_type = refl

-- A secondary order of unknown type, whose length is negative.
abbrev short_order : List ℕ
short_order = 0xfa ∷ 0xff ∷ 0 ∷ 0 ∷ 6 ∷ []

abbrev behind_short : Screen
behind_short = record (screen short_order) { stream = record (blank short_order) { p = 6 } }

process_secondary_order_lem_example :
    (behind_short.orders ≡ fresh_state)
    × (clipped behind_short ≡ false)
    × (behind_short.stream.p + 2 ^ 16 ≡ 0 + 5 + 0xfffa + 7)
unfolding process_secondary_order on_stream gets in_uint16_le
process_secondary_order_lem_example =
    process_secondary_order_lem silent (screen short_order) behind_short 0xfa 0xff 0 0 6
      (At-append [] short_order [] 0 refl) refl
