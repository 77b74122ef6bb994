-- ===== src/Mppc.antt =====
-- source/mppc.c: decompression of RDP data. `hist` is the history buffer of RDP_MPPC_DICT_SIZE
-- octets; an access outside it is a fault.
pub mod Bits
pub mod Token
pub mod Copy
pub mod Match
pub mod Consume
pub mod Loop
pub mod Bounds
pub mod Ascii
mod Tests
use rdesktopce_rdp.Prelude.{
  ℕ, zero, suc, ◌+◌, ◌-◌, ◌*◌, ◌/◌, ◌%◌, ◌^◌, Bool, true, false, Option, none, some, List, [], ◌∷◌,
  ltb, leb, ◌==◌, ◌&&◌, not, if◌then◌else◌, length, bit_and, bit_or,
}
use Bits.{Reader, ◌>>=◌, positive, shift, reload, pull, need, ready, next_bit}
use Token.{offset, match_length}

-- RDP_MPPC_DICT_SIZE
abbrev pub dict_size : ℕ
dict_size = 65536

abbrev pub Hist : Type 0
Hist = ℕ → ℕ

abbrev pub write : Hist → ℕ → ℕ → Hist
write h i v j = if i == j then v else h j

-- The variables of the loop.
pub record State : Type 0 where
  pub reader : Reader
  pub next_offset : ℕ
  pub hist : Hist

-- One round: the next round, the `break` with its state, `return -1`, or a fault.
pub data Round : Type 0 where
  again : State → Round
  finish : State → Round
  refused : Round
  fault : Round

-- `dict[next_offset++] = v` behind its guard, then `walker <<= 8; walker_len -= 8`.
unfoldable pub put : ℕ → Reader → State → Round
unfolding shift
put v r s =
    if leb dict_size s.next_offset
    then refused
    else again (record {
      reader = shift 8 r;
      next_offset = s.next_offset + 1;
      hist = write s.hist s.next_offset (v % 256);
    })

-- A literal below 128. With no octet left only padding may remain.
unfoldable pub literal : Reader → State → Round
unfolding put pull
literal r s =
    if ltb r.walker_len 8
    then elim (pull r) [
      | none ↦ if r.walker == 0 then finish (record s { reader = r }) else refused
      | some r' ↦ put (r'.walker / 2 ^ 24) r' s
    ]
    else put (r.walker / 2 ^ 24) r s

-- A literal from 128 on.
unfoldable pub high_literal : Reader → State → Round
unfolding put need
high_literal r s = elim (need 8 r) [
  | none ↦ refused
  | some r' ↦ put (bit_or (r'.walker / 2 ^ 24) 0x80) r' s
]

-- `do { dict[next_offset++] = dict[k++]; } while (--match_len != 0)` for `n` rounds, `n` not 0.
unfoldable pub copy : ℕ → ℕ → ℕ → Hist → Option (ℕ × Hist)
copy zero k next h = some (next, h)
copy (suc n) k next h =
    let more = copy n (k + 1) (next + 1) (write h next (h k)) in
    if ltb k dict_size && ltb next dict_size then more else none

-- The offset and the length of a match.
unfoldable pub token : Bool → Reader → Option (ℕ × ℕ × Reader)
unfolding shift need offset ready match_length
token big r = do
  r ← need (if big then 3 else 2) (shift 1 r)
  (match_off, r) ← offset big r
  r ← ready r
  (match_len, r) ← match_length big r
  some (match_off, match_len, r)

-- `k = (next_offset - match_off) & mask`
unfoldable pub source : Bool → ℕ → ℕ → ℕ
source big next off = (next + 2 ^ 32 - off) % (if big then 2 ^ 16 else 2 ^ 13)

unfoldable pub copy_match : Bool → ℕ → ℕ → Reader → State → Round
unfolding copy source
copy_match big match_off match_len r s =
    if leb dict_size (s.next_offset + match_len)
    then refused
    else elim (copy match_len (source big s.next_offset match_off) s.next_offset s.hist) [
      | none ↦ fault
      | some (next, h) ↦ again (record { reader = r; next_offset = next; hist = h })
    ]

-- The round behind `walker_len == 0`: on the first bits of a token.
unfoldable pub body : Bool → Reader → State → Round
unfolding literal high_literal token copy_match next_bit
body big r s = if positive r then literal r s else elim (next_bit r) [
  | none ↦ refused
  | some r' ↦ if positive r' then high_literal r' s else elim (token big r') [
    | none ↦ refused
    | some (off, len, r'') ↦ copy_match big off len r'' s
  ]
]

unfoldable pub round : Bool → State → Round
unfolding body ready
round big s = elim (ready s.reader) [ none ↦ finish s | some r ↦ body big r s ]

-- How the loop ends. `bad` is `return -1`, with what has been written of the history by then.
pub data Outcome : Type 0 where
  done : State → Outcome
  bad : State → Outcome
  crash : Outcome
  out_of_fuel : Outcome

unfoldable pub loop : Bool → ℕ → State → Outcome
unfolding round
loop big zero s = out_of_fuel
loop big (suc fuel) s = elim (round big s) [
  | again s' ↦ loop big fuel s'
  | finish s' ↦ done s'
  | refused ↦ bad s
  | fault ↦ crash
]

-- `g_mppc_dict`, less the stream that the callers keep in it.
pub record Dict : Type 0 where
  pub roff : ℕ
  pub hist : Hist

-- `return 0` or `return -1`, with `*roff`, `*rlen` and the dictionary; or no return at all.
pub data Result : Type 0 where
  expanded : (roff rlen : ℕ) → Dict → Result
  failed : (roff rlen : ℕ) → Dict → Result
  broken : Result
  endless : Result

-- RDP_MPPC_RESET, then RDP_MPPC_FLUSH.
unfoldable pub prepare : ℕ → Dict → Dict
prepare ctype d =
    let d' : Dict = if bit_and ctype 0x40 == 0 then d else record d { roff = 0 } in
    if bit_and ctype 0x80 == 0 then d' else record { roff = 0; hist = λ _. 0 }

-- On an error `g_mppc_dict.roff` and `*rlen` stay as they were set before the loop.
unfoldable pub conclude : Dict → Outcome → Result
conclude d (done s) =
    expanded d.roff (s.next_offset - d.roff) (record { roff = s.next_offset; hist = s.hist })
conclude d (bad s) = failed d.roff 0 (record { roff = d.roff; hist = s.hist })
conclude d crash = broken
conclude d out_of_fuel = endless

abbrev pub start : Dict → List ℕ → State
start d bs = record {
  reader = record { walker = d.roff; walker_len = 0; rest = bs };
  next_offset = d.roff;
  hist = d.hist;
}

-- Eight rounds for each octet are enough, and one to end.
abbrev pub fuel_for : List ℕ → ℕ
fuel_for bs = 8 * length bs + 1

unfoldable pub mppc_expand : List ℕ → ℕ → Dict → Result
unfolding loop prepare conclude
mppc_expand bs ctype d =
    if bit_and ctype 0x20 == 0
    then expanded 0 (length bs) d
    else (let d' = prepare ctype d in
        let result =
          conclude d' (loop (not (bit_and ctype 0x01 == 0)) (fuel_for bs) (start d' bs)) in
        if length bs == 0 then expanded d'.roff 0 d' else result)
