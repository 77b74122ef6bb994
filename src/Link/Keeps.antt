-- ===== src/Link/Keeps.antt =====
-- Actions that leave a part of the state as it is.
use rdesktopce_rdp.Prelude.{
  ℕ, ◌≡◌, refl, ◌∙◌, Bool, true, false, Option, none, some, if◌then◌else◌, List,
}
use rdesktopce_rdp.Stream
use rdesktopce_rdp.Stream.{Stream}
use rdesktopce_rdp.Tcp.{Net, Incoming, Received, with_received, tcp_recv, tcp_recv_new}
use rdesktopce_rdp.Link
use rdesktopce_rdp.Link.{N, pure, ◌>>=◌, ◌>>◌, on_out, on_in, init, send}

module _ {X : Type 0} (view : Net → X) where
  -- A result, if there is one, shows the same as the state `net`.
  abbrev pub Shows : {A : Type 0} → Net → Option (A × Net) → Type 0
  Shows net none = Unit {0}
  Shows net (some (_, net')) = view net' ≡ view net

  pub record Keeps {A : Type 0} (m : N A) : Type 0 where
    pub run : (net : Net) → Shows net (m net)

  Shows-trans :
      {A : Type 0} (net net' : Net) (r : Option (A × Net))
      → view net' ≡ view net
      → Shows net' r
      → Shows net r
  Shows-trans net net' none h k = tt
  Shows-trans net net' (some (_, net'')) h k = k ∙ h

  Shows-bind :
      {A B : Type 0} (net : Net) (r : Option (A × Net)) (f : A → N B)
      → Shows net r
      → ((a : A) → Keeps (f a))
      → Shows net (Link.bind r f)
  Shows-bind net none f h k = tt
  Shows-bind net (some (a, net')) f h k = Shows-trans net net' (f a net') h ((k a).run net')

  pub bind :
      {A B : Type 0} {m : N A} {f : A → N B} → Keeps m → ((a : A) → Keeps (f a)) → Keeps (m >>= f)
  bind {m} {f} h k = record { run = λ net. Shows-bind net (m net) f (h.run net) k }

  pub seq : {B : Type 0} {m : N (Unit {0})} {k : N B} → Keeps m → Keeps k → Keeps (m >> k)
  seq h k = bind h (λ _. k)

  pub unit : {A : Type 0} (a : A) → Keeps (pure a)
  unit a = record { run = λ net. refl }

  pub branch : {A : Type 0} {m k : N A} (b : Bool) → Keeps m → Keeps k → Keeps (if b then m else k)
  branch true h k = h
  branch false h k = k

  Shows-with_in :
      ((net : Net) (s : Stream) → view (record net { g_in = s }) ≡ view net)
      → {A : Type 0} (net : Net) (r : Option (A × Stream)) → Shows net (Link.with_in net r)
  Shows-with_in e net none = tt
  Shows-with_in e net (some (a, s)) = e net s

  Shows-with_out :
      ((net : Net) (s : Stream) → view (record net { g_out = s }) ≡ view net)
      → {A : Type 0} (net : Net) (r : Option (A × Stream)) → Shows net (Link.with_out net r)
  Shows-with_out e net none = tt
  Shows-with_out e net (some (a, s)) = e net s

  pub on_in-Keeps :
      ((net : Net) (s : Stream) → view (record net { g_in = s }) ≡ view net)
      → {A : Type 0} (m : Stream.M A) → Keeps (on_in m)
  on_in-Keeps e m = record { run = λ net. Shows-with_in e net (m net.g_in) }

  pub on_out-Keeps :
      ((net : Net) (s : Stream) → view (record net { g_out = s }) ≡ view net)
      → {A : Type 0} (m : Stream.M A) → Keeps (on_out m)
  on_out-Keeps e m = record { run = λ net. Shows-with_out e net (m net.g_out) }

  Shows-received :
      ((net : Net) (es : List Incoming) (s : Stream)
        → view (record net { g_in = s; incoming = es }) ≡ view net)
      → (net : Net) (r : Received) → Shows net (with_received net r)
  Shows-received e net none = tt
  Shows-received e net (some (done, es, s)) = e net es s

  module _
      (e : (net : Net) (es : List Incoming) (s : Stream)
        → view (record net { g_in = s; incoming = es }) ≡ view net) where
    pub tcp_recv-Keeps : (n : ℕ) → Keeps (tcp_recv n)
    unfolding tcp_recv
    tcp_recv-Keeps n = record { run = λ net. Shows-received e net _ }

    pub tcp_recv_new-Keeps : (n : ℕ) → Keeps (tcp_recv_new n)
    unfolding tcp_recv_new
    tcp_recv_new-Keeps n = record { run = λ net. Shows-received e net _ }
