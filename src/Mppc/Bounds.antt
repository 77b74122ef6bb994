-- ===== src/Mppc/Bounds.antt =====
-- source/mppc.c: one round of the loop: it uses up bits, stays inside the history, and changes no
-- octet outside the part it appends.
use rdesktopce_rdp.Prelude.{
  ℕ, ◌/◌, ◌%◌, ◌^◌, ◌≡◌, ◌≢◌, ◌≤◌, ◌<◌, Bool, some, ltb, if◌then◌else◌, Bool-cases, Option-cases,
  subst, inl, inr, arith, bit_or,
}
use rdesktopce_rdp.Mppc.{
  dict_size, State, again, finish, put, literal, high_literal, copy, token, source, copy_match,
  body, round,
}
use rdesktopce_rdp.Mppc.Bits.{Reader, positive, shift, pull, need, ready, next_bit}
use rdesktopce_rdp.Mppc.Token.{offset}
use rdesktopce_rdp.Mppc.Consume.{
  left, left-shift, left-shift_strict, pull-left, need-left, need-enough, ready-left, next_bit-left,
  offset-left, match_length-left,
}
use rdesktopce_rdp.Mppc.Copy.{write-miss, copy-Copied}

-- `s'` holds what `s` held, and appends to it without leaving the history.
pub record Appends (s s' : State) : Type 0 where
  pub lower : s.next_offset ≤ s'.next_offset
  pub upper : s'.next_offset ≤ dict_size
  pub before : (j : ℕ) → j < s.next_offset → s'.hist j ≡ s.hist j
  pub after : (j : ℕ) → s'.next_offset ≤ j → s'.hist j ≡ s.hist j

pub record Advances (s : State) (n : ℕ) (s' : State) : Type 0 where
  pub spends : left s'.reader < n
  pub appends : Appends s s'

put-Advances :
    (v : ℕ) (r : Reader) (s s' : State)
    → 8 ≤ r.walker_len
    → put v r s ≡ again s'
    → Advances s (left r) s'
unfolding put
put-Advances v r s s' p e = record {
  spends = ground (arith, left-shift_strict 8 r);
  appends = record {
    lower = ground arith;
    upper = ground arith;
    before = λ j q. ground (arith, write-miss s.hist s.next_offset (v % 256) j);
    after = λ j q. ground (arith, write-miss s.hist s.next_offset (v % 256) j);
  };
}

copy_match-Advances :
    (big : Bool) (off len : ℕ) (r : Reader) (s s' : State) (n : ℕ)
    → left r < n
    → copy_match big off len r s ≡ again s'
    → Advances s n s'
unfolding copy_match
copy_match-Advances big off len r s s' n p e =
    elim (Option-cases (copy len (source big s.next_offset off) s.next_offset s.hist)) [
      | inl e' ↦ ground (arith, e', e)
      | inr ((next, h), e') ↦
          let c = copy-Copied len (source big s.next_offset off) s.next_offset s.hist h next e' in
          record {
            spends = ground (arith, e', e);
            appends = record {
              lower = ground (arith, c.ends);
              upper = ground (arith, c.ends);
              before = λ j q. ground (arith, c.before j);
              after = λ j q. ground (arith, c.ends, c.after j);
            };
          }
    ]

literal-Advances : (r : Reader) (s s' : State) → literal r s ≡ again s' → Advances s (left r) s'
unfolding literal
literal-Advances r s s' e = elim (Bool-cases (ltb r.walker_len 8)) [
  | inl p ↦ elim (Option-cases (pull r)) [
    | inl e' ↦ ground (arith, e', e)
    | inr (r', e') ↦
        let q = pull-left r r' e' in
        subst (λ n. Advances s n s') q.0
          (put-Advances (r'.walker / 2 ^ 24) r' s s' (omega arith) (ground (arith, e', e)))
  ]
  | inr p ↦ put-Advances (r.walker / 2 ^ 24) r s s' (ground arith) (ground (arith, e))
]

high_literal-Advances :
    (r : Reader) (s s' : State) → high_literal r s ≡ again s' → Advances s (left r) s'
unfolding high_literal
high_literal-Advances r s s' e = elim (Option-cases (need 8 r)) [
  | inl e' ↦ ground (arith, e', e)
  | inr (r', e') ↦
      subst (λ n. Advances s n s') (need-left 8 r r' e')
        (put-Advances (bit_or (r'.walker / 2 ^ 24) 0x80) r' s s'
          (need-enough 8 r r' (omega arith) e') (ground (arith, e', e)))
]

token-left :
    (big : Bool) (r r' : Reader) (off len : ℕ)
    → token big r ≡ some (off, len, r')
    → left r' ≤ left r
unfolding token
token-left big r r' off len e =
    let first = need (if big then 3 else 2) (shift 1 r) in
    elim (Option-cases first) [
      | inl e1 ↦ ground (arith, e1, e)
      | inr (r1, e1) ↦ elim (Option-cases (offset big r1)) [
        | inl e2 ↦ ground (arith, e1, e2, e)
        | inr ((o, r2), e2) ↦ elim (Option-cases (ready r2)) [
          | inl e3 ↦ ground (arith, e1, e2, e3, e)
          | inr (r3, e3) ↦ ground (
            arith,
            e1,
            e2,
            e3,
            e,
            left-shift 1 r,
            need-left (if big then 3 else 2) (shift 1 r) r1,
            offset-left big r1 r2 o,
            ready-left r2 r3,
            match_length-left big r3 r' len,
          )
        ]
      ]
    ]

weaken : (s s' : State) (m n : ℕ) → m ≤ n → Advances s m s' → Advances s n s'
weaken s s' m n p a = record { spends = omega (arith, a.spends); appends = a.appends }

body-Advances :
    (big : Bool) (r : Reader) (s s' : State)
    → 1 ≤ r.walker_len
    → body big r s ≡ again s'
    → Advances s (left r) s'
unfolding body
body-Advances big r s s' p e = elim (Bool-cases (positive r)) [
  | inl q ↦ literal-Advances r s s' (ground (arith, q, e))
  | inr q ↦ elim (Option-cases (next_bit r)) [
    | inl e1 ↦ ground (arith, q, e1, e)
    | inr (r1, e1) ↦ elim (Bool-cases (positive r1)) [
      | inl q1 ↦
          weaken s s' (left r1) (left r) (next_bit-left r r1 e1).0
            (high_literal-Advances r1 s s' (ground (arith, q, e1, q1, e)))
      | inr q1 ↦ elim (Option-cases (token big r1)) [
        | inl e2 ↦ ground (arith, q, e1, q1, e2, e)
        | inr ((off, len, r2), e2) ↦
            copy_match-Advances big off len r2 s s' (left r)
              (omega (arith, (next_bit-left r r1 e1).1 p, token-left big r1 r2 off len e2))
              (ground (arith, q, e1, q1, e2, e))
      ]
    ]
  ]
]

pub round-Advances :
    (big : Bool) (s s' : State) → round big s ≡ again s' → Advances s (left s.reader) s'
unfolding round
round-Advances big s s' e = elim (Option-cases (ready s.reader)) [
  | inl e1 ↦ ground (arith, e1, e)
  | inr (r, e1) ↦
      let q = ready-left s.reader r e1 in
      subst (λ n. Advances s n s') q.0 (body-Advances big r s s' q.1 (ground (arith, e1, e)))
]

literal_finish :
    (r : Reader) (s s' : State)
    → literal r s ≡ finish s'
    → (s'.next_offset ≡ s.next_offset) × (s'.hist ≡ s.hist)
unfolding literal put
literal_finish r s s' e = ground arith

high_literal_finish : (r : Reader) (s s' : State) → high_literal r s ≢ finish s'
unfolding high_literal put
high_literal_finish r s s' e = ground arith

copy_match_finish :
    (big : Bool) (off len : ℕ) (r : Reader) (s s' : State) → copy_match big off len r s ≢ finish s'
unfolding copy_match
copy_match_finish big off len r s s' e = ground arith

body_finish :
    (big : Bool) (r : Reader) (s s' : State)
    → body big r s ≡ finish s'
    → (s'.next_offset ≡ s.next_offset) × (s'.hist ≡ s.hist)
unfolding body
body_finish big r s s' e = elim (Bool-cases (positive r)) [
  | inl q ↦ literal_finish r s s' (ground (arith, q, e))
  | inr q ↦ elim (Option-cases (next_bit r)) [
    | inl e1 ↦ ground (arith, q, e1, e)
    | inr (r1, e1) ↦ elim (Bool-cases (positive r1)) [
      | inl q1 ↦ ground (arith, q, e1, q1, e, high_literal_finish r1 s s')
      | inr q1 ↦ elim (Option-cases (token big r1)) [
        | inl e2 ↦ ground (arith, q, e1, q1, e2, e)
        | inr ((off, len, r2), e2) ↦
            ground (arith, q, e1, q1, e2, e, copy_match_finish big off len r2 s s')
      ]
    ]
  ]
]

-- The `break`s leave the history and its end alone.
pub round_finish :
    (big : Bool) (s s' : State)
    → round big s ≡ finish s'
    → (s'.next_offset ≡ s.next_offset) × (s'.hist ≡ s.hist)
unfolding round
round_finish big s s' e = elim (Option-cases (ready s.reader)) [
  | inl e1 ↦ ground (arith, e1, e)
  | inr (r, e1) ↦ body_finish big r s s' (ground (arith, e1, e))
]
