-- ===== src/Link.antt =====
-- Actions of the protocol layers on the state of source/tcp.c. `none` is a fault: an access
-- outside a buffer.
pub mod Keeps
use rdesktopce_rdp.Prelude.{ℕ, Option, none, some}
use rdesktopce_rdp.Stream
use rdesktopce_rdp.Stream.{Stream}
use rdesktopce_rdp.Tcp.{Net, tcp_init, tcp_send}

abbrev pub N : Type 0 → Type 0
N A = Net → Option (A × Net)

abbrev pub pure : {A : Type 0} → A → N A
pure a net = some (a, net)

abbrev pub bind : {A B : Type 0} → Option (A × Net) → (A → N B) → Option (B × Net)
bind none f = none
bind (some (a, net)) f = f a net

infixl 5 ◌>>=◌ ◌>>◌
abbrev pub ◌>>=◌ : {A B : Type 0} → N A → (A → N B) → N B
m >>= f = λ net. bind (m net) f

abbrev pub ◌>>◌ : {B : Type 0} → N (Unit {0}) → N B → N B
m >> k = m >>= λ _. k

abbrev pub with_out : {A : Type 0} → Net → Option (A × Stream) → Option (A × Net)
with_out net none = none
with_out net (some (a, s)) = some (a, record net { g_out = s })

abbrev pub with_in : {A : Type 0} → Net → Option (A × Stream) → Option (A × Net)
with_in net none = none
with_in net (some (a, s)) = some (a, record net { g_in = s })

-- The macros on the stream that is sent, and on the one that is received.
abbrev pub on_out : {A : Type 0} → Stream.M A → N A
on_out m net = with_out net (m net.g_out)

abbrev pub on_in : {A : Type 0} → Stream.M A → N A
on_in m net = with_in net (m net.g_in)

abbrev pub init : ℕ → N (Unit {0})
init n net = some (tt, tcp_init n net)

abbrev pub send : N (Unit {0})
send net = some (tt, tcp_send net)
