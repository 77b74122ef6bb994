-- ===== src/Mcs/Connect.antt =====
-- `mcs_connect_finalize` as a whole: what becomes of the connection.
use rdesktopce_rdp.Prelude.{
  ℕ, ◌+◌, ◌%◌, ◌^◌, ◌≡◌, refl, ◌∙◌, Bool, true, false, Option, none, some, Option-cases, inl, inr,
  List, [], ◌∷◌,
}
use rdesktopce_rdp.Stream
use rdesktopce_rdp.Stream.{s_mark_end, Stream}
use rdesktopce_rdp.Tcp.{Net}
use rdesktopce_rdp.Link
use rdesktopce_rdp.Link.{N, ◌>>=◌, ◌>>◌, pure, on_out, on_in}
use rdesktopce_rdp.Link.Keeps
use rdesktopce_rdp.Link.Keeps.{Keeps, Shows}
use rdesktopce_rdp.Iso.{iso_init, iso_send, iso_disconnect}
use rdesktopce_rdp.Iso.Keeps.{
  connected, iso_init-Keeps, iso_send-Keeps, iso_recv-Keeps, iso_disconnect-closes,
}
use rdesktopce_rdp.Mcs.Pdu.{
  out_connect_initial, in_connect_response, out_edrq, out_aurq, in_aucf, out_cjrq, in_cjcf,
  initial_length,
}
use rdesktopce_rdp.Mcs.{
  expect, answer, join, join_all, or_error, mcs_connect_finalize, userchannel_base, global_channel,
}

-- A request of a layer above keeps the connection.
request-Keeps :
    (n : ℕ) (m : Stream.M (Unit {0}))
    → Keeps connected (do iso_init n; on_out m; on_out s_mark_end; iso_send)
request-Keeps n m = Keeps.seq connected (iso_init-Keeps n) (
    Keeps.seq connected (Keeps.on_out-Keeps connected (λ net s. refl) m) (
      Keeps.seq connected (Keeps.on_out-Keeps connected (λ net s. refl) s_mark_end) iso_send-Keeps))

answer-Keeps :
    {A : Type 0} (failed : A) (reply : Stream.M A) (msg : Option ℕ)
    → Keeps connected (answer failed reply msg)
unfolding answer
answer-Keeps failed reply none = Keeps.unit connected failed
answer-Keeps failed reply (some _) = Keeps.on_in-Keeps connected (λ net s. refl) reply

expect-Keeps :
    {A : Type 0} (failed : A) (reply : Stream.M A) → Keeps connected (expect failed reply)
unfolding expect
expect-Keeps failed reply =
    Keeps.bind connected (iso_recv-Keeps connected (λ net es s. refl) false)
      λ msg. answer-Keeps failed reply msg

join-Keeps : (userid chanid : ℕ) → Keeps connected (join userid chanid)
unfolding join
join-Keeps userid chanid =
    Keeps.seq connected (request-Keeps 5 (out_cjrq userid (chanid % 2 ^ 16)))
      (expect-Keeps false in_cjcf)

join_all-Keeps : (userid : ℕ) (cs : List ℕ) → Keeps connected (join_all userid cs)
unfolding join_all
join_all-Keeps userid [] = Keeps.unit connected true
join_all-Keeps userid (c ∷ cs) =
    Keeps.bind connected (join-Keeps userid c)
      λ ok. Keeps.branch connected ok (join_all-Keeps userid cs) (Keeps.unit connected false)

-- A success leaves the connection as it was, a failure has closed it.
abbrev pub Ends : Net → Option ((Bool × ℕ) × Net) → Type 0
Ends net none = Unit {0}
Ends net (some ((true, userid), net')) = net'.connected ≡ net.connected
Ends net (some ((false, userid), net')) = net'.connected ≡ false

Ends-trans :
    (net net' : Net) (r : Option ((Bool × ℕ) × Net))
    → net'.connected ≡ net.connected
    → Ends net' r
    → Ends net r
Ends-trans net net' none h k = tt
Ends-trans net net' (some ((true, userid), net'')) h k = k ∙ h
Ends-trans net net' (some ((false, userid), net'')) h k = k

record Finishes (m : N (Bool × ℕ)) : Type 0 where
  run : (net : Net) → Ends net (m net)

Ends-bind :
    {A : Type 0} (net : Net) (r : Option (A × Net)) (f : A → N (Bool × ℕ))
    → Shows connected net r
    → ((a : A) → Finishes (f a))
    → Ends net (Link.bind r f)
Ends-bind net none f h k = tt
Ends-bind net (some (a, net')) f h k = Ends-trans net net' (f a net') h ((k a).run net')

sequel :
    {A : Type 0} {m : N A} {f : A → N (Bool × ℕ)}
    → Keeps connected m
    → ((a : A) → Finishes (f a))
    → Finishes (m >>= f)
sequel {m} {f} h k = record { run = λ net. Ends-bind net (m net) f (h.run net) k }

Ends-or_error :
    (userid : ℕ) (net : Net) → Ends net (or_error (false, userid) false (pure (true, userid)) net)
Ends-or_error userid net = elim (Option-cases (iso_disconnect net)) [
  | inl fault ↦ rw fault tt
  | inr (r, e) ↦ rw e (iso_disconnect-closes net r.1 e)
]

guarded :
    (userid : ℕ) (ok : Bool) {k : N (Bool × ℕ)}
    → Finishes k
    → Finishes (or_error (false, userid) ok k)
guarded userid true h = h
guarded userid false h = record { run = Ends-or_error userid }

-- On every input `mcs_connect_finalize` faults, succeeds with the connection as it found it, or
-- fails and has closed the socket.
pub mcs_connect_finalize-Ends :
    (sec_process : Stream.M (Unit {0})) (mcs_data channels : List ℕ) (userid₀ : ℕ) (net : Net)
    → Ends net (mcs_connect_finalize sec_process mcs_data channels userid₀ net)
unfolding mcs_connect_finalize
mcs_connect_finalize-Ends sec_process mcs_data channels userid₀ net = all.run net
  where
    all : Finishes (mcs_connect_finalize sec_process mcs_data channels userid₀)
    all = sequel (request-Keeps (initial_length mcs_data + 5) (out_connect_initial mcs_data)) λ _.
        sequel (expect-Keeps false (in_connect_response sec_process)) λ ok. guarded userid₀ ok (
          sequel (request-Keeps 5 out_edrq) λ _. sequel (request-Keeps 1 out_aurq) λ _.
            sequel (expect-Keeps (false, userid₀) (in_aucf userid₀)) λ (ok, userid).
              guarded userid ok (
                sequel (join-Keeps userid (userid + userchannel_base)) λ ok. guarded userid ok (
                  sequel (join-Keeps userid global_channel) λ ok. guarded userid ok (
                    sequel (join_all-Keeps userid channels)
                      λ ok. guarded userid ok (record { run = λ net. refl })))))
