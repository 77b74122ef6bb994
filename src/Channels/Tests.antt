-- ===== src/Channels/Tests.antt =====
-- Runs of the virtual channels.
use rdesktopce_rdp.Prelude.{ℕ, ◌≡◌, refl, List, [], ◌∷◌, true, length, replicate, some, none, arith}
use rdesktopce_rdp.Samples.{blank}
use rdesktopce_rdp.Channels.{VChannel, defragment, channel_process}
use rdesktopce_rdp.Channels.Route.{holding, channel_process-defragment}
use rdesktopce_rdp.Channels.Send.{plan}
use rdesktopce_rdp.Channels.Defrag.{cut, delivered, delivered-plan}

-- Data of 1700 octets goes in two fragments.
two_fragments : plan true 1700 ≡ (1600, 0x11) ∷ (100, 0x12) ∷ []
unfolding plan
two_fragments = refl

abbrev octets : List ℕ
octets = replicate 1700 7

delivered-plan_example :
    delivered
      (λ xs. length xs)
      (length octets)
      (cut octets (plan true (length octets)))
      (record { bytes = 1 ∷ []; p = 1 })
    ≡ octets ∷ []
delivered-plan_example =
    delivered-plan (λ xs. length xs) true octets (record { bytes = 1 ∷ []; p = 1 })

abbrev channel : ℕ → VChannel
channel id = record {
  mcs_id = id;
  name = replicate 8 65;
  flags = 0;
  buffer = record { bytes = []; p = 0 };
}

-- The first of two fragments, for the second of two channels.
channel_process-defragment_example :
    channel_process
      (λ _ _. 0)
      (holding (blank []) (9 ∷ []) 4 0x01 (42 ∷ 43 ∷ []) [])
      1005
      (channel 1004 ∷ channel 1005 ∷ [])
    ≡ some (
      channel 1004
          ∷ record (channel 1005) { buffer = record { bytes = 42 ∷ 43 ∷ 0 ∷ 0 ∷ []; p = 2 } }
          ∷ [],
      none,
    )
unfolding defragment
channel_process-defragment_example =
    channel_process-defragment (λ _ _. 0) (blank []) (9 ∷ []) 4 0x01 (42 ∷ 43 ∷ []) [] 1005
      (channel 1004 ∷ []) [] (channel 1005) (omega arith) (omega arith) (refl, tt) refl
