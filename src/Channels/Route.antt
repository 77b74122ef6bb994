-- ===== src/Channels/Route.antt =====
-- source/channels.c: a fragment reaches the channel with its id, and no other.
use rdesktopce_rdp.Prelude.{
  ℕ, ◌+◌, ◌-◌, ◌*◌, ◌/◌, ◌%◌, ◌^◌, ◌≡◌, ◌<◌, refl, sym, ap, subst, ◌∙◌, true, false, Option, none,
  some, List, [], ◌∷◌, ◌++◌, leb, ◌==◌, length, take, drop, arith, append_assoc, take-append,
  drop-append, length-append,
}
use rdesktopce_rdp.Stream.{Stream, at, byte, in_uint32_le}
use rdesktopce_rdp.Stream.Read.{At, At-append, in_uint32_le_lem}
use rdesktopce_rdp.Secure.Sent.{le32}
use rdesktopce_rdp.Channels.{
  VChannel, defragment, remaining_octets, in_fragment, dispatch, channel_process,
}

-- A fragment as it stands in a stream, behind `pre`.
abbrev pub holding : Stream → List ℕ → ℕ → ℕ → List ℕ → List ℕ → Stream
holding s pre len flags octets post = record s {
  bytes = pre ++ (le32 len ++ (le32 flags ++ (octets ++ post)));
  p = length pre;
  end = length pre + 8 + length octets;
}

word :
    (v : ℕ)
    → v < 2 ^ 32
    → byte (v % 2 ^ 16)
        + byte (v % 2 ^ 16 / 256) * 256
        + byte (v / 2 ^ 16 % 2 ^ 16) * 2 ^ 16
        + byte (v / 2 ^ 16 % 2 ^ 16 / 256) * 2 ^ 24
      ≡ v
word v h = omega arith

read32 :
    (s : Stream) (d pre post : List ℕ) (i v : ℕ)
    → d ≡ pre ++ (le32 v ++ post)
    → i ≡ length pre
    → v < 2 ^ 32
    → in_uint32_le (at s d i) ≡ some (v, at s d (i + 1 + 1 + 1 + 1))
read32 s d pre post i v e h k =
    in_uint32_le_lem (at s d i) _ _ _ _
      (subst (λ x. At x i (le32 v)) (sym e) (At-append pre (le32 v) post i h))
    ∙ ap (λ w. some (w, at s d (i + 1 + 1 + 1 + 1))) (word v k)

remaining_octets_lem :
    (s : Stream) (pre octets post : List ℕ) (i : ℕ)
    → i ≡ length pre
    → remaining_octets
        (record s { bytes = pre ++ (octets ++ post); p = i; end = i + length octets })
      ≡ some (octets, record s { bytes = pre ++ (octets ++ post); p = i; end = i + length octets })
unfolding remaining_octets
remaining_octets_lem s pre octets post i e =
    let ordered : leb i (i + length octets) ≡ true = ground arith in
    let fits : leb (i + length octets) (length (pre ++ (octets ++ post))) ≡ true =
      ground (arith, e, length-append pre (octets ++ post), length-append octets post) in
    let cut : take (i + length octets - i) (drop i (pre ++ (octets ++ post))) ≡ octets =
      ap (take (i + length octets - i)) (drop-append pre (octets ++ post) i e)
      ∙ take-append octets post (i + length octets - i) (omega arith) in
    rw (ordered, fits, cut) refl

remaining_at :
    (s : Stream) (d pre octets post : List ℕ) (i n : ℕ)
    → d ≡ pre ++ (octets ++ post)
    → i ≡ length pre
    → n ≡ i + length octets
    → remaining_octets (record s { bytes = d; p = i; end = n })
      ≡ some (octets, record s { bytes = d; p = i; end = n })
remaining_at s d pre octets post i n e h k = rw (e, k) (remaining_octets_lem s pre octets post i h)

in_fragment_lem :
    (s : Stream) (pre : List ℕ) (len flags : ℕ) (octets post : List ℕ)
    → len < 2 ^ 32
    → flags < 2 ^ 32
    → (s' : Stream) × (in_fragment (holding s pre len flags octets post)
        ≡ some ((len, flags, octets), s'))
unfolding in_fragment
in_fragment_lem s pre len flags octets post h k =
    let t = holding s pre len flags octets post in
    let d = t.bytes in
    let i = length pre in
    let one = read32 t d pre (le32 flags ++ (octets ++ post)) i len refl refl h in
    let split₁ : d ≡ (pre ++ le32 len) ++ (le32 flags ++ (octets ++ post)) =
      sym (append_assoc pre (le32 len) (le32 flags ++ (octets ++ post))) in
    let two =
      read32 t d (pre ++ le32 len) (octets ++ post) (i + 1 + 1 + 1 + 1) flags split₁
        (omega (arith, length-append pre (le32 len))) k in
    let split₂ : d ≡ ((pre ++ le32 len) ++ le32 flags) ++ (octets ++ post) =
      split₁ ∙ sym (append_assoc (pre ++ le32 len) (le32 flags) (octets ++ post)) in
    let place = i + 1 + 1 + 1 + 1 + 1 + 1 + 1 + 1 in
    let three =
      remaining_at s d ((pre ++ le32 len) ++ le32 flags) octets post place (i + 8 + length octets)
        split₂
        (omega (arith, length-append (pre ++ le32 len) (le32 flags), length-append pre (le32 len)))
        (omega arith) in
    (record s { bytes = d; p = place; end = i + 8 + length octets }, rw (one, two, three) refl)

-- No channel of the list has the id.
abbrev pub Others : ℕ → List VChannel → Type 0
Others id [] = Unit
Others id (c ∷ cs) = ((c.mcs_id == id) ≡ false) × Others id cs

abbrev pub event : ℕ → Option (List ℕ) → Option (ℕ × List ℕ)
event id none = none
event id (some whole) = some (id, whole)

dispatch_lem :
    (reads : ℕ → List ℕ → ℕ) (id len flags : ℕ) (octets : List ℕ) (s : Stream)
    (before after : List VChannel) (c : VChannel)
    → Others id before
    → (c.mcs_id == id) ≡ true
    → dispatch reads id (some ((len, flags, octets), s)) (before ++ (c ∷ after))
      ≡ some (
        before
            ++ (record c { buffer = (defragment (reads id) len flags octets c.buffer).0 } ∷ after),
        event id (defragment (reads id) len flags octets c.buffer).1,
      )
unfolding dispatch
dispatch_lem reads id len flags octets s [] after c o e = rw e refl
dispatch_lem reads id len flags octets s (b ∷ before) after c (d, o) e =
    rw (d, dispatch_lem reads id len flags octets s before after c o e) refl

-- On a stream at the header of a fragment, `channel_process` changes the first channel with the id
-- as its defragmentation does with the announced length, the flags and the octets up to the end,
-- calls back that channel or none, and leaves all others as they are.
pub channel_process-defragment :
    (reads : ℕ → List ℕ → ℕ) (s : Stream) (pre : List ℕ) (len flags : ℕ) (octets post : List ℕ)
    (id : ℕ) (before after : List VChannel) (c : VChannel)
    → len < 2 ^ 32
    → flags < 2 ^ 32
    → Others id before
    → (c.mcs_id == id) ≡ true
    → channel_process reads (holding s pre len flags octets post) id (before ++ (c ∷ after))
      ≡ some (
        before
            ++ (record c { buffer = (defragment (reads id) len flags octets c.buffer).0 } ∷ after),
        event id (defragment (reads id) len flags octets c.buffer).1,
      )
unfolding channel_process
channel_process-defragment reads s pre len flags octets post id before after c h k o e =
    let (s', read) = in_fragment_lem s pre len flags octets post h k in
    ap (λ r. dispatch reads id r (before ++ (c ∷ after))) read
    ∙ dispatch_lem reads id len flags octets s' before after c o e
