-- ===== src/Kv4p/Pacer.antt =====
-- `_TxPacer` of radio_server/backends/kv4p/pacer.py over the encoder of audio.py. PCM is a list of
-- samples, so a frame is 1920 of them and the buffer bound 16 frames; each method runs under the lock or on
-- one thread. `sends` is what the next calls of the transport do, `delivered` past its end; `handed` lists
-- the packets that it was called with, newest first.
pub mod Cadence
pub mod Tail
mod Examples
use radio_server.Base.{
  ℕ, ◌+◌, ◌-◌, ◌*◌, Bool, true, false, not, List, [], ◌∷◌, ◌++◌, length, take, drop, replicate, leb,
  ltb, ◌==◌, if◌then◌else◌,
}
use radio_server.Kv4p.Encoder.{Samples, frame_samples, push, flush}

-- DEFAULT_MAX_BUFFER_BYTES
abbrev pub max_buffer : ℕ
max_buffer = frame_samples * 16

-- _SILENCE_FRAME
abbrev pub silence : Samples
silence = replicate frame_samples 0

-- What `send_tx_audio` does: it returns, raises Kv4pTimeout, or raises Kv4pClosed.
pub data Sent : Type 0 where
  delivered timed_out closed : Sent

pub record TxPacer : Type 0 where
  pub buf : Samples
  pub dropped : ℕ
  pub acc : Samples
  pub stopped : Bool
  pub sends : List Sent
  pub handed : List Samples

abbrev pub new : Samples → List Sent → TxPacer
new acc sends = record {
  buf = [];
  dropped = 0;
  acc = acc;
  stopped = false;
  sends = sends;
  handed = [];
}

unfoldable pub enqueue : Samples → TxPacer → TxPacer
enqueue pcm p =
    if length pcm == 0
    then p
    else let buf = p.buf ++ pcm in
      let overflow = length buf - max_buffer in
      if ltb 0 overflow
      then record p { buf = drop overflow buf; dropped = p.dropped + overflow }
      else record p { buf = buf }

abbrev pub next_send : List Sent → Sent
next_send [] = delivered
next_send (s ∷ ss) = s

abbrev pub later_sends : List Sent → List Sent
later_sends [] = []
later_sends (s ∷ ss) = ss

-- The call with one packet.
abbrev pub send : Samples → TxPacer → TxPacer
send packet p = record p { sends = later_sends p.sends; handed = packet ∷ p.handed }

abbrev pub stop : TxPacer → TxPacer
stop p = record p { stopped = true }

-- `_emit`: a closed transport ends the call, a timeout skips the packet.
unfoldable pub emit : List Samples → TxPacer → TxPacer
emit [] p = p
emit (packet ∷ packets) p =
    let rest = emit packets (send packet p) in
    elim (next_send p.sends) [ delivered ↦ rest | timed_out ↦ rest | closed ↦ stop (send packet p) ]

module _ (gain : ℕ → ℕ) where
  abbrev pub pushed : Samples → TxPacer → TxPacer
  pushed frame p =
      let (packets, acc) = push gain frame p.acc in emit packets (record p { acc = acc })

  unfoldable pub tick : TxPacer → TxPacer
  tick p =
      if leb frame_samples (length p.buf)
      then pushed (take frame_samples p.buf) (record p { buf = drop frame_samples p.buf })
      else pushed silence p

  abbrev pub flushed : TxPacer → TxPacer
  flushed p = let (packets, acc) = flush p.acc in emit packets (record p { acc = acc })

  unfoldable pub flush_tail : TxPacer → TxPacer
  flush_tail p =
      let cleared = record p { buf = [] } in
      flushed (if length p.buf == 0 then cleared else pushed p.buf cleared)
