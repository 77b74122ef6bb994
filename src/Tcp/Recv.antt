-- ===== src/Tcp/Recv.antt =====
-- What the receive loop delivers.
use rdesktopce_rdp.Prelude.{
  ℕ, Option, Bool, replicate, length-replicate, zero, suc, ◌+◌, ◌-◌, ◌≤◌, ◌<◌, ◌≡◌, refl, ap, subst,
  ◌∙◌, true, false, some, List, [], ◌∷◌, ◌++◌, map, arith, length, take, drop, length-append,
  length-map, length-take, length-drop, append_assoc, append-nil, take-append-drop, take-append_ge,
  take-append_le, drop-append_ge, drop-append_le, drop-drop, map-take, map-drop,
}
use native.Mathlib.Decide.{dec_le}
use rdesktopce_rdp.Stream.{Stream, byte}
use rdesktopce_rdp.Stream.Write.{out_uint8p_lem}
use rdesktopce_rdp.Tcp.{
  Incoming, got, again, broken, closed, quit, land, leftover, recv_loop, grow, Net, tcp_recv,
  tcp_recv_new,
}

-- The octets that the peer's chunks hold, up to the first outcome that ends the connection.
unfoldable pub avail : List Incoming → List ℕ
avail [] = []
avail (got b bs ∷ es) = map byte (b ∷ bs) ++ avail es
avail (again ∷ es) = avail es
avail (broken ∷ es) = []
avail (closed ∷ es) = []
avail (quit ∷ es) = []

abbrev filled : Stream → List ℕ → ℕ → Stream
filled s d e = record s { bytes = d; end = e }

module _ (s : Stream) where
  land_lem :
      (bs pre old post : List ℕ) (e : ℕ)
      → e ≡ length pre
      → length old ≡ length bs
      → land bs (filled s (pre ++ (old ++ post)) e)
        ≡ some (filled s (pre ++ (map byte bs ++ post)) (e + length bs))
  unfolding land
  land_lem bs pre old post e h k =
      rw (out_uint8p_lem (filled s (pre ++ (old ++ post)) e) bs pre old post e h k, land)

  -- The same with the room as one list.
  land_room :
      (bs pre room : List ℕ) (e : ℕ)
      → e ≡ length pre
      → length bs ≤ length room
      → land bs (filled s (pre ++ room) e)
        ≡ some (filled s (pre ++ (map byte bs ++ drop (length bs) room)) (e + length bs))
  land_room bs pre room e h k =
      let t =
        land_lem bs pre (take (length bs) room) (drop (length bs) room) e h
          (omega (arith, length-take (length bs) room)) in
      subst
        (λ r.
          land bs (filled s (pre ++ r) e)
          ≡ some (filled s (pre ++ (map byte bs ++ drop (length bs) room)) (e + length bs)))
        (take-append-drop (length bs) room) t

-- What a loop that got all its octets leaves: those of the peer, in order, behind what was there.
abbrev Filled : Stream → List Incoming → ℕ → List ℕ → List ℕ → ℕ → Type 0
Filled s es n pre room e =
    (es' : List Incoming) × (recv_loop es n (filled s (pre ++ room) e)
      ≡ some (true, es', filled s (pre ++ (take n (avail es) ++ drop n room)) (e + n)))
    × (avail es' ≡ drop n (avail es))

avail-leftover :
    (bs : List ℕ) (es : List Incoming) → avail (leftover bs es) ≡ map byte bs ++ avail es
unfolding avail leftover
avail-leftover [] es = refl
avail-leftover (b ∷ bs) es = refl

module _ (s : Stream) (b : ℕ) (bs : List ℕ) (es : List Incoming) (n : ℕ) where
  abbrev chunk : List ℕ
  chunk = b ∷ bs

  -- A chunk that is used up, given what the loop does behind it.
  got_whole :
      (pre room : List ℕ) (e : ℕ)
      → e ≡ length pre
      → length chunk ≤ suc n
      → suc n ≤ length room
      → Filled s es
          (suc n - length chunk)
          (pre ++ map byte chunk)
          (drop (length chunk) room)
          (e + length chunk)
      → Filled s (got b bs ∷ es) (suc n) pre room e
  unfolding recv_loop avail
  got_whole pre room e h c k (es', loop, rest) = (
    es',
    ground (
      arith,
      land_room s chunk pre room e h,
      take-append_ge chunk [] (suc n),
      append-nil chunk,
      loop,
      append_assoc pre (map byte chunk) (drop (length chunk) room),
      length-map byte chunk,
      take-append_ge (map byte chunk) (avail es) (suc n),
      drop-drop room (length chunk) (suc n - length chunk),
      append_assoc pre (map byte chunk) (
          take (suc n - length chunk) (avail es)
          ++ drop (suc n - length chunk) (drop (length chunk) room)),
      append_assoc (map byte chunk) (take (suc n - length chunk) (avail es)) (drop (suc n) room),
    ),
    ground (arith, rest, length-map byte chunk, drop-append_ge (map byte chunk) (avail es) (suc n)),
  )

  -- A chunk that holds more than is wanted: the rest of it waits for the next call.
  got_part :
      (pre room : List ℕ) (e : ℕ)
      → e ≡ length pre
      → suc n < length chunk
      → suc n ≤ length room
      → Filled s (got b bs ∷ es) (suc n) pre room e
  unfolding recv_loop avail
  got_part pre room e h c k = (
    leftover (drop (suc n) chunk) es,
    ground (
      arith,
      land_room s (take (suc n) chunk) pre room e h,
      length-take (suc n) chunk,
      map-take byte chunk (suc n),
      length-map byte chunk,
      take-append_le (map byte chunk) (avail es) (suc n),
    ),
    ground (
      arith,
      avail-leftover (drop (suc n) chunk) es,
      map-drop byte chunk (suc n),
      length-map byte chunk,
      drop-append_le (map byte chunk) (avail es) (suc n),
    ),
  )

module _ (s : Stream) where
  -- The loop gets the next `n` octets of the peer however they are cut into chunks.
  pub recv_loop-Filled :
      (es : List Incoming) (n : ℕ) (pre room : List ℕ) (e : ℕ)
      → e ≡ length pre
      → n ≤ length room
      → n ≤ length (avail es)
      → Filled s es n pre room e
  unfolding recv_loop avail
  recv_loop-Filled es zero pre room e h k a =
      (es, ap (λ j. some (true, es, filled s (pre ++ room) j)) (omega arith), refl)
  recv_loop-Filled [] (suc n) pre room e h k a = absurd (omega arith)
  recv_loop-Filled (again ∷ es) (suc n) pre room e h k a =
      recv_loop-Filled es (suc n) pre room e h k a
  recv_loop-Filled (broken ∷ es) (suc n) pre room e h k a = absurd (omega arith)
  recv_loop-Filled (closed ∷ es) (suc n) pre room e h k a = absurd (omega arith)
  recv_loop-Filled (quit ∷ es) (suc n) pre room e h k a = absurd (omega arith)
  recv_loop-Filled (got b bs ∷ es) (suc n) pre room e h k a =
      elim (dec_le (suc (length bs)) (suc n)) [
        | yes c ↦
            let c' : List ℕ = b ∷ bs in
            got_whole s b bs es n pre room e h c k (
              recv_loop-Filled es (suc n - length c') (pre ++ map byte c') (drop (length c') room)
                (e + length c') (omega (arith, length-append pre (map byte c'), length-map byte c'))
                (omega (arith, length-drop (length c') room))
                (omega (arith, length-append (map byte c') (avail es), length-map byte c')))
        | no c ↦ got_part s b bs es n pre room e h (omega arith) k
      ]

-- With fewer octets than wanted the loop ends with NULL, and it never writes out of bounds.
pub recv_loop-short :
    (es : List Incoming) (n : ℕ) (s : Stream) (pre room : List ℕ) (e : ℕ)
    → e ≡ length pre
    → n ≤ length room
    → length (avail es) < n
    → (es' : List Incoming) × (s' : Stream) × (recv_loop es n (filled s (pre ++ room) e)
        ≡ some (false, es', s'))
unfolding recv_loop avail
recv_loop-short es zero s pre room e h k a = absurd (omega arith)
recv_loop-short [] (suc n) s pre room e h k a = ([], filled s (pre ++ room) e, refl)
recv_loop-short (again ∷ es) (suc n) s pre room e h k a =
    recv_loop-short es (suc n) s pre room e h k a
recv_loop-short (broken ∷ es) (suc n) s pre room e h k a = (es, filled s (pre ++ room) e, refl)
recv_loop-short (closed ∷ es) (suc n) s pre room e h k a = (es, filled s (pre ++ room) e, refl)
recv_loop-short (quit ∷ es) (suc n) s pre room e h k a = (es, filled s (pre ++ room) e, refl)
recv_loop-short (got b bs ∷ es) (suc n) s pre room e h k a =
    let c' : List ℕ = b ∷ bs in
    let (es', s', loop) =
      recv_loop-short es (suc n - length c') s (pre ++ map byte c') (drop (length c') room)
        (e + length c') (omega (arith, length-append pre (map byte c'), length-map byte c'))
        (omega (arith, length-drop (length c') room))
        (omega (arith, length-append (map byte c') (avail es), length-map byte c')) in
    (
      es',
      s',
      ground (
        arith,
        loop,
        length-append (map byte c') (avail es),
        length-map byte c',
        land_room s c' pre room e h,
        take-append_ge c' [] (suc n),
        append-nil c',
        append_assoc pre (map byte c') (drop (length c') room),
      ),
    )

-- `grow` makes room for `n` octets behind the first `e`.
grow_room :
    (d : List ℕ) (e n : ℕ)
    → e ≤ length d
    → (room : List ℕ) × (grow (e + n) d ≡ take e d ++ room) × (n ≤ length room)
unfolding grow
grow_room d e n h = (
  drop e d ++ replicate (e + n - length d) 0,
  rw (← append_assoc (take e d) (drop e d) (replicate (e + n - length d) 0), take-append-drop e d),
  omega (
    arith,
    length-append (drop e d) (replicate (e + n - length d) 0),
    length-drop e d,
    length-replicate (e + n - length d) (let z : ℕ = 0 in z),
  ),
)

-- The state after `n` octets more: they stand behind the first `e`, and the rest waits.
pub record Appended (net : Net) (p e n : ℕ) (r : Option (Bool × Net)) : Type 0 where
  pub es : List Incoming
  pub tail : List ℕ
  pub result :
      r
      ≡ some (
        true,
        record net {
          incoming = es;
          g_in = record net.g_in {
            bytes = take e net.g_in.bytes ++ (take n (avail net.incoming) ++ tail);
            p = p;
            end = e + n;
          };
        },
      )
  pub rest : avail es ≡ drop n (avail net.incoming)

module _ (n : ℕ) (net : Net) where
  -- `tcp_recv(s, n)`, with `n` octets to come, appends them behind the end of the stream, keeps
  -- its place and the octets before its end, and leaves the others for the next call.
  pub tcp_recv-Appended :
      net.g_in.end ≤ length net.g_in.bytes
      → n ≤ length (avail net.incoming)
      → Appended net net.g_in.p net.g_in.end n (tcp_recv n net)
  unfolding tcp_recv
  tcp_recv-Appended h a =
      let s = net.g_in in
      let (room, big, fits) = grow_room s.bytes s.end n h in
      let (es', loop, left) =
        recv_loop-Filled s net.incoming n (take s.end s.bytes) room s.end
          (omega (arith, length-take s.end s.bytes)) fits a in
      record { es = es'; tail = drop n room; result = rw (big, loop); rest = left }

  -- `tcp_recv(NULL, n)`, with `n` octets to come from the peer, reads them into the start of the
  -- stream, in order and however they are cut, and leaves the others for the next call.
  pub tcp_recv_new-Appended :
      n ≤ length (avail net.incoming) → Appended net 0 0 n (tcp_recv_new n net)
  unfolding tcp_recv_new
  tcp_recv_new-Appended a =
      let s = net.g_in in
      let (room, big, fits) = grow_room s.bytes 0 n (omega arith) in
      let plain : n ≡ 0 + n = omega arith in
      let (es', loop, left) =
        recv_loop-Filled (record s { p = 0 }) net.incoming n [] room 0 refl fits a in
      record {
        es = es';
        tail = drop n room;
        result = rw (ap (λ k. grow k s.bytes) plain ∙ big, loop);
        rest = left;
      }
