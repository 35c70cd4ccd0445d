-- ===== src/Kv4p/Encoder.antt =====
-- `TxAudioEncoder` of radio_server/backends/kv4p/audio.py: its re-blocking to whole frames. Audio is a
-- list of 16-bit samples; `gain` is `_apply_tx_gain` on one sample. A packet stands as the block of samples
-- that Opus encodes into it, one packet for each block.
pub mod Blocks
use radio_server.Base.{
  ℕ, zero, suc, ◌-◌, Bool, List, [], ◌∷◌, ◌++◌, length, take, drop, map, replicate, leb, ◌==◌,
  if◌then◌else◌,
}

abbrev pub Samples : Type 0
Samples = List ℕ

-- FRAME_SAMPLES
abbrev pub frame_samples : ℕ
frame_samples = 1920

-- The loop of `push`, on fuel: `(packets, acc)`.
unfoldable pub blocks : ℕ → Samples → List Samples × Samples
blocks zero acc = ([], acc)
blocks (suc fuel) acc =
    let (rest, left) = blocks fuel (drop frame_samples acc) in
    if leb frame_samples (length acc) then (take frame_samples acc ∷ rest, left) else ([], acc)

-- `push`: the packets, and the accumulator it leaves. As much fuel as samples.
unfoldable pub push : (ℕ → ℕ) → Samples → Samples → List Samples × Samples
push gain frame acc = let all = acc ++ map gain frame in blocks (length all) all

-- `flush`
unfoldable pub flush : Samples → List Samples × Samples
flush acc =
    if length acc == 0
    then ([], [])
    else ((acc ++ replicate (frame_samples - length acc) 0) ∷ [], [])
