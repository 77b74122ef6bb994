-- ===== src/Orders/Session/Rounds.antt =====
-- The loop of source/orders.c on what a server writes.
use rdesktopce_rdp.Prelude.{on, ℕ, ◌+◌, List, [], ◌∷◌, ◌++◌, if◌then◌else◌, length}
use rdesktopce_rdp.Stream
use rdesktopce_rdp.Stream.{Stream, at}
use rdesktopce_rdp.Orders.{OrderState}
use rdesktopce_rdp.Orders.Screen
use rdesktopce_rdp.Orders.Screen.{Screen, Platform, ui_reset_clip, S, ◌>>=◌, ◌>>◌, call}
use rdesktopce_rdp.Orders.Session.{Item, present_octets, size_of, typed, item_octets, next_state}

-- The screen with `n` octets more read.
abbrev pub moved : Screen → ℕ → Screen
moved w n = record w { stream = at w.stream w.stream.bytes (w.stream.p + n) }

module _ (ui : Platform) (i : Item ui) where
  -- The octets behind the flags.
  abbrev type_part : List ℕ
  type_part = if on i.flags 0x08 then i.coded.type ∷ [] else []

  abbrev present_part : List ℕ
  present_part = present_octets (size_of i) i.present

  abbrev field_part : OrderState → List ℕ
  field_part st = i.coded.octets i.present (on i.flags 0x10) (i.coded.get (typed i st)) i.order

  -- The screen behind an order.
  abbrev pub behind : Screen → Screen
  behind w = record w {
    stream = at w.stream w.stream.bytes (w.stream.p + length (item_octets w.orders i));
    orders = next_state w.orders i;
    calls = w.calls ++ i.coded.drawn w.brushes i.order;
  }
