-- ===== src/Orders/Keeps.antt =====
-- Handlers of the orders that leave a part of the state as it is.
use rdesktopce_rdp.Prelude.{◌≡◌, refl, ◌∙◌, Bool, true, false, Option, none, some, if◌then◌else◌}
use rdesktopce_rdp.Stream
use rdesktopce_rdp.Stream.{Stream}
use rdesktopce_rdp.Orders.Screen
use rdesktopce_rdp.Orders.Screen.{
  Screen, Call, S, pure, ◌>>=◌, ◌>>◌, on_stream, gets, set_orders, call,
}

module _ {X : Type 0} (view : Screen → X) where
  -- A result, if there is one, shows the same as `w`.
  abbrev pub Shows : {A : Type 0} → Screen → Option (A × Screen) → Type 0
  Shows w none = Unit {0}
  Shows w (some (_, w')) = view w' ≡ view w

  pub record Keeps {A : Type 0} (m : S A) : Type 0 where
    pub run : (w : Screen) → Shows w (m w)

  Shows-trans :
      {A : Type 0} (w w' : Screen) (r : Option (A × Screen))
      → view w' ≡ view w
      → Shows w' r
      → Shows w r
  Shows-trans w w' none h k = tt
  Shows-trans w w' (some (_, w'')) h k = k ∙ h

  Shows-bind :
      {A B : Type 0} (w : Screen) (r : Option (A × Screen)) (f : A → S B)
      → Shows w r
      → ((a : A) → Keeps (f a))
      → Shows w (Screen.bind r f)
  Shows-bind w none f h k = tt
  Shows-bind w (some (a, w')) f h k = Shows-trans w w' (f a w') h ((k a).run w')

  pub bind :
      {A B : Type 0} {m : S A} {f : A → S B} → Keeps m → ((a : A) → Keeps (f a)) → Keeps (m >>= f)
  bind {m} {f} h k = record { run = λ w. Shows-bind w (m w) f (h.run w) k }

  pub seq : {B : Type 0} {m : S (Unit {0})} {k : S B} → Keeps m → Keeps k → Keeps (m >> k)
  seq h k = bind h (λ _. k)

  pub unit : {A : Type 0} (a : A) → Keeps (pure a)
  unit a = record { run = λ w. refl }

  pub query : {A : Type 0} (f : Screen → A) → Keeps (gets f)
  unfolding gets
  query f = record { run = λ w. refl }

  pub branch : {A : Type 0} {m k : S A} (b : Bool) → Keeps m → Keeps k → Keeps (if b then m else k)
  branch true h k = h
  branch false h k = k

  Shows-with_stream :
      ((w : Screen) (s : Stream) → view (record w { stream = s }) ≡ view w)
      → {A : Type 0} (w : Screen) (r : Option (A × Stream)) → Shows w (Screen.with_stream w r)
  Shows-with_stream e w none = tt
  Shows-with_stream e w (some (a, s)) = e w s

  pub reading :
      ((w : Screen) (s : Stream) → view (record w { stream = s }) ≡ view w)
      → {A : Type 0} (m : Stream.M A) → Keeps (on_stream m)
  unfolding on_stream
  reading e m = record { run = λ w. Shows-with_stream e w (m w.stream) }
