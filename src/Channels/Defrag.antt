-- ===== src/Channels/Defrag.antt =====
-- source/channels.c: the fragments of `channel_send` are put together again by `channel_process`.
use rdesktopce_rdp.Prelude.{
  ℕ, zero, suc, ◌+◌, ◌-◌, ◌≡◌, ◌≤◌, ◌<◌, refl, sym, ap, ◌∙◌, min, Bool, true, false, none, some,
  List, [], ◌∷◌, ◌++◌, ltb, ◌==◌, length, take, drop, arith, Bool-cases, inl, inr, length-append,
  length-take, length-drop, take-append, append_assoc, take-append-drop, take-length, replicate,
  length-replicate,
}
use rdesktopce_rdp.Tcp.{grow}
use rdesktopce_rdp.Channels.{Buffer, defragment, chunk_length}
use rdesktopce_rdp.Channels.Send.{plan, rest_plan, with_show}

-- The octets of each fragment, by the plan.
abbrev pub cut : List ℕ → List (ℕ × ℕ) → List (ℕ × List ℕ)
cut octets [] = []
cut octets ((n, flags) ∷ ps) = (flags, take n octets) ∷ cut (drop n octets) ps

-- The octets that the callback gets of a sequence of fragments that announce `len`.
unfoldable pub delivered : (List ℕ → ℕ) → ℕ → List (ℕ × List ℕ) → Buffer → List (List ℕ)
delivered reads len [] b = []
delivered reads len ((flags, octets) ∷ fs) b =
    let (b', out) = defragment reads len flags octets b in
    let rest = delivered reads len fs b' in elim out [ none ↦ rest | some whole ↦ whole ∷ rest ]

-- What the two kinds of fragments make of the buffer.
abbrev stored : List ℕ → Buffer → Buffer
stored octets b =
    let n : ℕ = min (length octets) (length b.bytes - b.p) in
    record { bytes = take b.p b.bytes ++ (take n octets ++ drop (b.p + n) b.bytes); p = b.p + n }

middle :
    (reads : List ℕ → ℕ) (len : ℕ) (show : Bool) (octets : List ℕ) (b : Buffer)
    → defragment reads len (with_show show 0) octets b ≡ (stored octets b, none)
unfolding defragment
middle reads len true octets b = refl
middle reads len false octets b = refl

first :
    (reads : List ℕ → ℕ) (len : ℕ) (show : Bool) (octets : List ℕ) (b : Buffer)
    → defragment reads len (with_show show 0x01) octets b
      ≡ (stored octets (record { bytes = grow len b.bytes; p = 0 }), none)
unfolding defragment
first reads len true octets b = refl
first reads len false octets b = refl

single :
    (reads : List ℕ → ℕ) (len : ℕ) (show : Bool) (octets : List ℕ) (b : Buffer)
    → defragment reads len (with_show show 0x03) octets b ≡ (b, some octets)
unfolding defragment
single reads len true octets b = refl
single reads len false octets b = refl

last :
    (reads : List ℕ → ℕ) (len : ℕ) (show : Bool) (octets : List ℕ) (b : Buffer)
    → (defragment reads len (with_show show 0x02) octets b).1
      ≡ some (take (stored octets b).p (stored octets b).bytes)
unfolding defragment
last reads len true octets b = refl
last reads len false octets b = refl

-- The buffer holds `done` before `p`, with room for `room` octets.
record Holds (done : List ℕ) (room : ℕ) (b : Buffer) : Type 0 where
  prefix : take b.p b.bytes ≡ done
  place : b.p ≡ length done
  fits : length done + room ≤ length b.bytes

take_all : (xs : List ℕ) (n : ℕ) → n ≡ length xs → take n xs ≡ xs
take_all xs n e = ap (λ k. take k xs) e ∙ take-length xs

stored-Holds :
    (done octets : List ℕ) (room : ℕ) (b : Buffer)
    → Holds done room b
    → length octets ≤ room
    → Holds (done ++ octets) (room - length octets) (stored octets b)
stored-Holds done octets room b h q =
    let n : ℕ = min (length octets) (length b.bytes - b.p) in
    let all : n ≡ length octets = omega (arith, h.place, h.fits) in
    let post = drop (b.p + n) b.bytes in
    let body : take b.p b.bytes ++ (take n octets ++ post) ≡ (done ++ octets) ++ post =
      rw (h.prefix, take_all octets n all) (sym (append_assoc done octets post)) in
    record {
      prefix =
          ap (take (b.p + n)) body
          ∙ take-append (done ++ octets) post (b.p + n)
              (omega (arith, h.place, all, length-append done octets));
      place = omega (arith, h.place, all, length-append done octets);
      fits = rw body (
          omega (
            arith,
            h.place,
            h.fits,
            all,
            length-append (done ++ octets) post,
            length-append done octets,
            length-drop (b.p + n) b.bytes,
          ));
    }

deliver_none :
    (reads : List ℕ → ℕ) (len flags : ℕ) (octets : List ℕ) (fs : List (ℕ × List ℕ)) (b b' : Buffer)
    → defragment reads len flags octets b ≡ (b', none)
    → delivered reads len ((flags, octets) ∷ fs) b ≡ delivered reads len fs b'
unfolding delivered
deliver_none reads len flags octets fs b b' e =
    let flag = ap (λ x. x.1) e in
    rw (delivered, flag) (ap (delivered reads len fs) (ap (λ x. x.0) e))

deliver_some :
    (reads : List ℕ → ℕ) (len flags : ℕ) (octets whole : List ℕ) (b : Buffer)
    → (defragment reads len flags octets b).1 ≡ some whole
    → delivered reads len ((flags, octets) ∷ []) b ≡ whole ∷ []
unfolding delivered
deliver_some reads len flags octets whole b e = rw (delivered, e) refl

rest_plan_end : (fuel : ℕ) (show : Bool) → rest_plan fuel show 0 ≡ []
unfolding rest_plan
rest_plan_end zero show = refl
rest_plan_end (suc fuel) show = refl

rest_plan_last :
    (fuel : ℕ) (show : Bool) (r : ℕ)
    → 0 < r
    → r ≤ chunk_length
    → rest_plan (suc fuel) show r ≡ (r, with_show show 0x02) ∷ []
unfolding rest_plan
rest_plan_last fuel show r p q =
    let all : min r chunk_length ≡ r = omega arith in
    let none_left : r - r ≡ 0 = omega arith in
    let some_left : ltb 0 r ≡ true = ground arith in
    rw (all, none_left, some_left, rest_plan_end fuel show) refl

rest_plan_more :
    (fuel : ℕ) (show : Bool) (r : ℕ)
    → chunk_length < r
    → rest_plan (suc fuel) show r
      ≡ (chunk_length, with_show show 0) ∷ rest_plan fuel show (r - chunk_length)
unfolding rest_plan
rest_plan_more fuel show r p =
    let full : min r chunk_length ≡ chunk_length = omega arith in
    let more : (r - chunk_length == 0) ≡ false = ground arith in
    let some_left : ltb 0 r ≡ true = ground arith in rw (full, more, some_left) refl

rest-delivered :
    (reads : List ℕ → ℕ) (len fuel : ℕ) (show : Bool) (done octets : List ℕ) (b : Buffer)
    → Holds done (length octets) b
    → 0 < length octets
    → length octets ≤ fuel
    → delivered reads len (cut octets (rest_plan fuel show (length octets))) b
      ≡ (done ++ octets) ∷ []
rest-delivered reads len zero show done octets b h p q = ground arith
rest-delivered reads len (suc fuel) show done octets b h p q =
    elim (Bool-cases (ltb chunk_length (length octets))) [
      | inl e ↦
          let long : chunk_length < length octets = ground arith in
          let piece = take chunk_length octets in
          let tail = drop chunk_length octets in
          let size : length piece ≡ chunk_length = omega (arith, length-take chunk_length octets) in
          let left : length tail ≡ length octets - chunk_length = length-drop chunk_length octets in
          let h' = stored-Holds done piece (length octets) b h (omega arith) in
          let here =
            deliver_none reads len (with_show show 0) piece
              (cut tail (rest_plan fuel show (length octets - chunk_length))) b (stored piece b)
              (middle reads len show piece b) in
          let ih =
            rest-delivered reads len fuel show (done ++ piece) tail (stored piece b)
              (record {
                prefix = h'.prefix;
                place = h'.place;
                fits = omega (arith, h'.fits, left, size);
              })
              (omega arith) (omega arith) in
          let joined : (done ++ piece) ++ tail ≡ done ++ octets =
            append_assoc done piece tail
            ∙ ap (λ xs. done ++ xs) (take-append-drop chunk_length octets) in
          rw (rest_plan_more fuel show (length octets) long, here, sym left)
            (ih ∙ ap (λ w. w ∷ []) joined)
      | inr e ↦
          let short : length octets ≤ chunk_length = ground arith in
          let all = take-length octets in
          let h' = stored-Holds done octets (length octets) b h (omega arith) in
          rw (rest_plan_last fuel show (length octets) p short, all)
            (deliver_some reads len (with_show show 0x02) octets (done ++ octets) b
              (last reads len show octets b ∙ ap some h'.prefix))
    ]

plan_single : (show : Bool) (n : ℕ) → n ≤ chunk_length → plan show n ≡ (n, with_show show 0x03) ∷ []
unfolding plan
plan_single show n p =
    let all : min n chunk_length ≡ n = omega arith in
    let none_left : n - n ≡ 0 = omega arith in rw (all, none_left, rest_plan_end n show) refl

plan_many :
    (show : Bool) (n : ℕ)
    → chunk_length < n
    → plan show n ≡ (chunk_length, with_show show 0x01) ∷ rest_plan n show (n - chunk_length)
unfolding plan
plan_many show n p =
    let full : min n chunk_length ≡ chunk_length = omega arith in
    let more : (n - chunk_length == 0) ≡ false = ground arith in rw (full, more) refl

grown-Holds : (n : ℕ) (b : Buffer) → Holds [] n (record { bytes = grow n b.bytes; p = 0 })
unfolding grow
grown-Holds n b = record {
  prefix = refl;
  place = refl;
  fits = omega (
    arith,
    length-append b.bytes (replicate (n - length b.bytes) 0),
    length-replicate (n - length b.bytes) (let z : ℕ = 0 in z),
  );
}

-- Data of any length that is cut as `channel_send` cuts it, each fragment announcing the whole
-- length, reaches the callback of the receiver once and unchanged, whatever its buffer held and
-- however far earlier callbacks read.
pub delivered-plan :
    (reads : List ℕ → ℕ) (show : Bool) (octets : List ℕ) (b : Buffer)
    → delivered reads (length octets) (cut octets (plan show (length octets))) b ≡ octets ∷ []
delivered-plan reads show octets b = elim (Bool-cases (ltb chunk_length (length octets))) [
  | inl e ↦
      let len : ℕ = length octets in
      let long : chunk_length < len = ground arith in
      let piece = take chunk_length octets in
      let tail = drop chunk_length octets in
      let size : length piece ≡ chunk_length = omega (arith, length-take chunk_length octets) in
      let left : length tail ≡ len - chunk_length = length-drop chunk_length octets in
      let fresh : Buffer = record { bytes = grow len b.bytes; p = 0 } in
      let h = stored-Holds [] piece len fresh (grown-Holds len b) (omega arith) in
      let here =
        deliver_none reads len (with_show show 0x01) piece
          (cut tail (rest_plan len show (len - chunk_length))) b (stored piece fresh)
          (first reads len show piece b) in
      let rest =
        rest-delivered reads len len show piece tail (stored piece fresh)
          (record { prefix = h.prefix; place = h.place; fits = omega (arith, h.fits, left, size) })
          (omega arith) (omega arith) in
      rw (plan_many show len long, here, sym left)
        (rest ∙ ap (λ w. w ∷ []) (take-append-drop chunk_length octets))
  | inr e ↦
      let short : length octets ≤ chunk_length = ground arith in
      rw (plan_single show (length octets) short, take-length octets)
        (deliver_some reads (length octets) (with_show show 0x03) octets octets b
          (ap (λ x. x.1) (single reads (length octets) show octets b)))
]
