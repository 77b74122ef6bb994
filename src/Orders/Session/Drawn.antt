-- ===== src/Orders/Session/Drawn.antt =====
-- What the orders have in common when they are read and drawn.
use rdesktopce_rdp.Prelude.{
  on, ℕ, ◌+◌, ◌≡◌, refl, ap, some, List, [], ◌∷◌, ◌++◌, if◌then◌else◌, length, append-nil, sym,
  Bool-cases, inl, inr, bit_and,
}
use rdesktopce_rdp.Stream
use rdesktopce_rdp.Stream.{Stream, at}
use rdesktopce_rdp.Stream.Read.{At}
use rdesktopce_rdp.Cache.Tables
use rdesktopce_rdp.Cache.Tables.{Brushes}
use rdesktopce_rdp.Orders.{OrderState, Brush}
use rdesktopce_rdp.Orders.Fields.{first_octet}
use rdesktopce_rdp.Orders.Screen.{
  Screen, Call, S, pure, ◌>>=◌, ◌>>◌, on_stream, gets, set_orders, call,
}
use rdesktopce_rdp.Orders.Store.{setup_brush, usable, cached_brush}
use rdesktopce_rdp.Orders.Draw.{bad_rop2}
use rdesktopce_rdp.Orders.Coding.{Takes}

-- A handler that reads an order and then draws with it.
module _ {A : Type 0} (get : OrderState → A) (put : A → OrderState → OrderState)
    (reader : A → Stream.M A) (rest : A → S (Unit {0})) (drawn : Brushes → A → List Call)
    (rest_lem : (a : A) (w : Screen)
      → rest a w ≡ some (tt, record w { calls = w.calls ++ drawn w.brushes a })) where
  pub drawing :
      (bs : List ℕ) (new : A) (w : Screen)
      → Takes (reader (get w.orders)) bs new
      → At w.stream.bytes w.stream.p bs
      → (gets (λ v. get v.orders) >>= λ o.
            on_stream (reader o) >>= λ os. set_orders (put os) >> rest os)
          w
        ≡ some (
          tt,
          record w {
            stream = at w.stream w.stream.bytes (w.stream.p + length bs);
            orders = put new w.orders;
            calls = w.calls ++ drawn w.brushes new;
          },
        )
  unfolding gets on_stream set_orders
  drawing bs new w t h = rw (t.run w.stream h) (
      rest_lem new (record w {
        stream = at w.stream w.stream.bytes (w.stream.p + length bs);
        orders = put new w.orders;
      }))

-- The brush that is drawn with.
unfoldable pub brush_of : Brushes → Brush → Brush
brush_of brushes b =
    if on b.style 0x80
    then cached_brush
        (usable
          (Tables.cache_get_brush_data (bit_and b.style 0x0f) (first_octet b.pattern) brushes))
        b
    else b

pub called :
    (c : Call) (w : Screen) → call c w ≡ some (tt, record w { calls = w.calls ++ (c ∷ []) })
unfolding call
called c w = refl

pub brushed :
    (b : Brush) (f : Brush → Call) (w : Screen)
    → (setup_brush b >>= λ brush. call (f brush)) w
      ≡ some (tt, record w { calls = w.calls ++ (f (brush_of w.brushes b) ∷ []) })
unfolding setup_brush call brush_of
brushed b f w = refl

pub checked :
    (opcode : ℕ) (c : Call) (w : Screen)
    → (if bad_rop2 opcode then pure tt else call c) w
      ≡ some (tt, record w { calls = w.calls ++ (if bad_rop2 opcode then [] else c ∷ []) })
unfolding call
checked opcode c w = elim (Bool-cases (bad_rop2 opcode)) [
  | inl e ↦
      rw e (ap (λ (cs : List Call). some (tt, record w { calls = cs })) (sym (append-nil w.calls)))
  | inr e ↦ rw e refl
]
