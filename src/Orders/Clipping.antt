-- ===== src/Orders/Clipping.antt =====
-- The handlers of the primary orders of source/orders.c do not touch the clipping.
use rdesktopce_rdp.Prelude.{
  ℕ, ◌≡◌, refl, ◌∙◌, Bool, true, false, Option, none, some, ◌==◌, if◌then◌else◌,
}
use rdesktopce_rdp.Stream
use rdesktopce_rdp.Stream.{Stream}
use rdesktopce_rdp.Orders.{OrderState}
use rdesktopce_rdp.Orders.Screen.{
  Screen, Platform, Call, ui_desktop_save, ui_desktop_restore, S, pure, ◌>>=◌, ◌>>◌, on_stream,
  gets, set_orders, call, int16, extent,
}
use rdesktopce_rdp.Orders.Store.{setup_brush}
use rdesktopce_rdp.Orders.Draw.{
  bad_rop2, process_destblt, process_patblt, process_screenblt, process_line, process_rect,
  process_desksave, process_memblt, process_triblt,
}
use rdesktopce_rdp.Orders.Shape.{
  process_polygon, process_polygon2, process_polyline, process_ellipse, process_ellipse2,
  process_text2,
}
use rdesktopce_rdp.Orders.Points.{delta_points}
use rdesktopce_rdp.Orders.Process.{handler}
use rdesktopce_rdp.Orders.Keeps
use rdesktopce_rdp.Orders.Keeps.{Keeps}
use rdesktopce_rdp.Orders.Clip.{
  clip_step, clip_after-append, clipped, Blind, reads, calls, lift-Keeps, setup_brush-Keeps,
  get_bitmap-Keeps,
}

pub clipped-Blind : Blind clipped
clipped-Blind = record {
  to_stream = λ w s. refl;
  to_banks = λ w b. refl;
  to_fonts = λ w f. refl;
  to_brushes = λ w b. refl;
  to_calls = λ w cs h. clip_after-append false w.calls cs ∙ h (clipped w);
}

-- The fields of an order are read, and are the order from then on.
order_then :
    {A : Type 0} (old : Screen → A) (m : A → Stream.M A) (set : A → OrderState → OrderState)
    (rest : A → S (Unit {0}))
    → ((os : A) → Keeps clipped (rest os))
    → Keeps clipped (gets old >>= λ o. on_stream (m o) >>= λ os. set_orders (set os) >> rest os)
unfolding set_orders
order_then old m set rest h = Keeps.bind clipped (Keeps.query clipped old) (λ o.
    Keeps.bind clipped (reads clipped clipped-Blind (m o))
      (λ os. Keeps.seq clipped (orders_set os) (h os)))
  where
    orders_set : (os : _) → Keeps clipped (set_orders (set os))
    orders_set os = record { run = λ w. refl }

drawn : (c : Call) → ((b : Bool) → clip_step b c ≡ b) → Keeps clipped (call c)
drawn = calls clipped clipped-Blind

checked :
    (opcode : ℕ) (m : S (Unit {0}))
    → Keeps clipped m
    → Keeps clipped (if bad_rop2 opcode then pure tt else m)
checked opcode m h = Keeps.branch clipped (bad_rop2 opcode) (Keeps.unit clipped tt) h

given :
    {A : Type 0} {f : A → S (Unit {0})} (o : Option A)
    → ((a : A) → Keeps clipped (f a))
    → Keeps clipped (elim o [ none ↦ pure tt | some a ↦ f a ])
given none h = Keeps.unit clipped tt
given (some a) h = h a

brushed :
    {f : _ → S (Unit {0})} (b : _)
    → ((a : _) → Keeps clipped (f a))
    → Keeps clipped (setup_brush b >>= f)
brushed b h = Keeps.bind clipped (setup_brush-Keeps clipped clipped-Blind b) h

saved :
    (save b : Bool) (offset x y cx cy : ℕ)
    → clip_step b ((if save then ui_desktop_save else ui_desktop_restore) offset x y cx cy) ≡ b
saved true b offset x y cx cy = refl
saved false b offset x y cx cy = refl

module _ (ui : Platform) (present : ℕ) (delta : Bool) where
  process_destblt-Keeps : Keeps clipped (process_destblt present delta)
  unfolding process_destblt
  process_destblt-Keeps = order_then _ _ _ _ (λ os. drawn _ (λ b. refl))

  process_patblt-Keeps : Keeps clipped (process_patblt present delta)
  unfolding process_patblt
  process_patblt-Keeps = order_then _ _ _ _ (λ os. brushed _ (λ brush. drawn _ (λ b. refl)))

  process_screenblt-Keeps : Keeps clipped (process_screenblt present delta)
  unfolding process_screenblt
  process_screenblt-Keeps = order_then _ _ _ _ (λ os. drawn _ (λ b. refl))

  process_line-Keeps : Keeps clipped (process_line present delta)
  unfolding process_line
  process_line-Keeps = order_then _ _ _ _ (λ os. checked os.opcode _ (drawn _ (λ b. refl)))

  process_rect-Keeps : Keeps clipped (process_rect present delta)
  unfolding process_rect
  process_rect-Keeps = order_then _ _ _ _ (λ os. drawn _ (λ b. refl))

  process_desksave-Keeps : Keeps clipped (process_desksave present delta)
  unfolding process_desksave
  process_desksave-Keeps = order_then _ _ _ _ (λ os. drawn _ (λ b.
      saved (os.action == 0) b os.offset (int16 os.left) (int16 os.top) (extent os.left os.right)
        (extent os.top os.bottom)))

  process_memblt-Keeps : Keeps clipped (process_memblt ui present delta)
  unfolding process_memblt
  process_memblt-Keeps = order_then _ _ _ _ (λ os.
      Keeps.bind clipped (get_bitmap-Keeps clipped clipped-Blind ui _ _)
        (λ bitmap. given bitmap (λ src. drawn _ (λ b. refl))))

  process_triblt-Keeps : Keeps clipped (process_triblt ui present delta)
  unfolding process_triblt
  process_triblt-Keeps = order_then _ _ _ _ (λ os.
      Keeps.bind clipped (get_bitmap-Keeps clipped clipped-Blind ui _ _)
        (λ bitmap. given bitmap (λ src. brushed _ (λ brush. drawn _ (λ b. refl)))))

  process_polygon-Keeps : Keeps clipped (process_polygon present delta)
  unfolding process_polygon
  process_polygon-Keeps = order_then _ _ _ _ (λ os. checked os.opcode _ (
      Keeps.bind clipped
        (lift-Keeps clipped clipped-Blind (delta_points 255 os.npoints os.octets os.datasize))
        (λ points. given points (λ ps. drawn _ (λ b. refl)))))

  process_polygon2-Keeps : Keeps clipped (process_polygon2 present delta)
  unfolding process_polygon2
  process_polygon2-Keeps = order_then _ _ _ _ (λ os. checked os.opcode _ (
      brushed _ (λ brush.
        Keeps.bind clipped
          (lift-Keeps clipped clipped-Blind (delta_points 255 os.npoints os.octets os.datasize))
          (λ points. given points (λ ps. drawn _ (λ b. refl))))))

  process_polyline-Keeps : Keeps clipped (process_polyline present delta)
  unfolding process_polyline
  process_polyline-Keeps = order_then _ _ _ _ (λ os. checked os.opcode _ (
      Keeps.bind clipped
        (lift-Keeps clipped clipped-Blind (delta_points os.lines os.lines os.octets os.datasize))
        (λ points. given points (λ ps. drawn _ (λ b. refl)))))

  process_ellipse-Keeps : Keeps clipped (process_ellipse present delta)
  unfolding process_ellipse
  process_ellipse-Keeps = order_then _ _ _ _ (λ os. drawn _ (λ b. refl))

  process_ellipse2-Keeps : Keeps clipped (process_ellipse2 present delta)
  unfolding process_ellipse2
  process_ellipse2-Keeps = order_then _ _ _ _ (λ os. brushed _ (λ brush. drawn _ (λ b. refl)))

  process_text2-Keeps : Keeps clipped (process_text2 present delta)
  unfolding process_text2
  process_text2-Keeps = order_then _ _ _ _ (λ os. brushed _ (λ brush. drawn _ (λ b. refl)))

  -- The handler of an order type, if there is one.
  abbrev pub AllKeep : Option (ℕ → Bool → S (Unit {0})) → Type 0
  AllKeep none = Unit {0}
  AllKeep (some process) = Keeps clipped (process present delta)

  case_of :
      (b : Bool) (o o' : Option (ℕ → Bool → S (Unit {0})))
      → AllKeep o
      → AllKeep o'
      → AllKeep (if b then o else o')
  case_of true o o' p q = p
  case_of false o o' p q = q

  pub handler-AllKeep : (type : ℕ) → AllKeep (handler ui type)
  unfolding handler
  handler-AllKeep type = case_of (type == 0) _ _ process_destblt-Keeps (
      case_of (type == 1) _ _ process_patblt-Keeps (
        case_of (type == 2) _ _ process_screenblt-Keeps (
          case_of (type == 9) _ _ process_line-Keeps (
            case_of (type == 10) _ _ process_rect-Keeps (
              case_of (type == 11) _ _ process_desksave-Keeps (
                case_of (type == 13) _ _ process_memblt-Keeps (
                  case_of (type == 14) _ _ process_triblt-Keeps (
                    case_of (type == 20) _ _ process_polygon-Keeps (
                      case_of (type == 21) _ _ process_polygon2-Keeps (
                        case_of (type == 22) _ _ process_polyline-Keeps (
                          case_of (type == 25) _ _ process_ellipse-Keeps (
                            case_of (type == 26) _ _ process_ellipse2-Keeps
                              (case_of (type == 27) _ _ process_text2-Keeps (tt))))))))))))))
