-- ===== src/Secure/Receive.antt =====
-- source/secure.c: sec_recv, with the licence exchange and the channels behind it.
use rdesktopce_rdp.Prelude.{
  ℕ, bit_and, zero, suc, ◌+◌, ◌-◌, ◌%◌, ◌^◌, Bool, true, ◌&&◌, ◌||◌, not, Option, none, some, List,
  [], ◌∷◌, ◌++◌, leb, ◌==◌, if◌then◌else◌, length, take, drop,
}
use rdesktopce_rdp.Stream
use rdesktopce_rdp.Stream.{Stream, in_uint8s, in_uint32_le}
use rdesktopce_rdp.Link.{N, pure, ◌>>=◌, ◌>>◌, on_in}
use rdesktopce_rdp.Mcs.{Received, null, fast_path, channel_data, mcs_recv, global_channel}
use rdesktopce_rdp.Channels.{VChannel, channel_process}
use rdesktopce_rdp.Licence.{Licence, Holder, licensed, licence_process}
use rdesktopce_rdp.Secure.{Ssl, Keys, sec_decrypt}
use rdesktopce_rdp.Secure.Packet.{encrypts}

-- What the layers of `sec_recv` keep; `events` are the calls of the callbacks of the channels.
pub record Layers (Rc4 : Type 0) : Type 0 where
  pub keys : Keys Rc4
  pub licence : Licence
  pub channels : List VChannel
  pub events : List (ℕ × List ℕ)

-- How a round ends: `continue`, NULL, or the stream with `*rdpver`.
pub data Delivery : Type 0 where
  again : Delivery
  closed : Delivery
  packet : (rdpver : ℕ) → Delivery

-- The two words at `p` of a redirection, `00 04 XX YY`, become `XX YY 04 00`.
unfoldable pub swap_words : List ℕ → Option (List ℕ)
swap_words [] = none
swap_words (a ∷ []) = if a == 0 then none else some (a ∷ [])
swap_words (a ∷ b ∷ []) = if (a == 0) && (b == 4) then none else some (a ∷ b ∷ [])
swap_words (a ∷ b ∷ x ∷ []) = if (a == 0) && (b == 4) then none else some (a ∷ b ∷ x ∷ [])
swap_words (a ∷ b ∷ x ∷ y ∷ rest) =
    some (if (a == 0) && (b == 4) then x ∷ y ∷ b ∷ a ∷ rest else a ∷ b ∷ x ∷ y ∷ rest)

unfoldable pub in_redirect : Stream.M (Unit {0})
unfolding swap_words
in_redirect s = elim (swap_words (drop s.p s.bytes)) [
  | none ↦ none
  | some rest ↦ some (tt, record s { bytes = take s.p s.bytes ++ rest })
]

-- `flags & mask`
abbrev pub has : ℕ → ℕ → Bool
has flags mask = not (bit_and flags mask == 0)

-- The call of a callback, if there is one.
abbrev pub event_of : Option (ℕ × List ℕ) → List (ℕ × List ℕ)
event_of none = []
event_of (some e) = e ∷ []

module _ {Rc4 : Type 0} (ssl : Ssl Rc4) where
  -- `in_uint8s(s, 8); sec_decrypt(s->p, s->end - s->p);`
  unfoldable pub in_signed : Keys Rc4 → Stream.M (Keys Rc4)
  unfolding sec_decrypt
  in_signed keys s =
      let p : ℕ = s.p + 8 in
      let (plain, keys') = sec_decrypt ssl (take (s.end - p) (drop p s.bytes)) keys in
      if leb p s.end && leb s.end (length s.bytes)
      then some (keys', record s { bytes = take p s.bytes ++ (plain ++ drop s.end s.bytes); p = p })
      else none

  module _ (holder : Holder) (reads : ℕ → List ℕ → ℕ) (userid : ℕ) where
    unfoldable pub to_licence : Layers Rc4 → N (Delivery × Layers Rc4)
    unfolding licence_process
    to_licence w = licence_process ssl holder userid w.keys w.licence >>= λ r.
        pure (again, record w { licence = r.0; keys = r.1 })

    -- A channel of its own gets the packet, and the caller is told to leave it.
    unfoldable pub to_channel : ℕ → Layers Rc4 → N (Delivery × Layers Rc4)
    unfolding channel_process
    to_channel channel w net =
        if channel == global_channel
        then some ((packet 3, w), net)
        else elim (channel_process reads net.g_in channel w.channels) [
          | none ↦ none
          | some (cs, event) ↦
              some (
                (packet 0xff, record w { channels = cs; events = w.events ++ event_of event }),
                net,
              )
        ]

    -- With the flags of the security header, on an encrypted connection.
    unfoldable pub in_encrypted : ℕ → ℕ → Layers Rc4 → N (Delivery × Layers Rc4)
    unfolding in_signed to_licence to_channel
    in_encrypted flags channel w = do
      keys ← (if encrypts flags then on_in (in_signed w.keys) else pure w.keys)
      (if has flags 0x80
          then to_licence (record w { keys = keys })
          else if has flags 0x400
          then (do
            keys' ← on_in (in_signed keys)
            on_in in_redirect
            to_channel channel (record w { keys = keys' }))
          else to_channel channel (record w { keys = keys }))

    -- `g_encryption`, and what `mcs_recv` gave.
    unfoldable pub sec_received : Bool → Received → Layers Rc4 → N (Delivery × Layers Rc4)
    unfolding in_encrypted
    sec_received encryption null w = pure (closed, w)
    sec_received encryption (fast_path version) w =
        if has version 0x80
        then (do keys ← on_in (in_signed w.keys); pure (packet version, record w { keys = keys }))
        else pure (packet version, w)
    sec_received encryption (channel_data channel) w =
        if encryption || not (licensed w.licence)
        then (do
          flags ← on_in in_uint32_le
          (if encryption
              then in_encrypted flags channel w
              else if flags % 2 ^ 16 == 0x80
              then to_licence w
              else (do on_in (λ s. some (tt, record s { p = s.p - 4 })); to_channel channel w)))
        else to_channel channel w

    -- The loop, for up to `rounds` packets; `again` at the end where all were of the licence exchange.
    unfoldable pub sec_recv : ℕ → Bool → Layers Rc4 → N (Delivery × Layers Rc4)
    unfolding mcs_recv sec_received
    sec_recv zero encryption w = pure (again, w)
    sec_recv (suc rounds) encryption w = do
      msg ← mcs_recv true
      r ← sec_received encryption msg w
      elim r.0 [
        | again ↦ sec_recv rounds encryption r.1
        | closed ↦ pure (closed, r.1)
        | packet rdpver ↦ pure (packet rdpver, r.1)
      ]
