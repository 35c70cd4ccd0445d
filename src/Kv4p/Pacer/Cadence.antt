-- ===== src/Kv4p/Pacer/Cadence.antt =====
-- What radio_server/backends/kv4p/pacer.py keeps while a key is held.
use radio_server.Base.{
  ℕ, ◌+◌, ◌-◌, ◌<◌, ◌≤◌, ◌≡◌, refl, ap, ◌∙◌, List, [], ◌∷◌, ◌++◌, length, take, drop, leb, ltb,
  ◌==◌, if_intro, arith, length-take, length-drop, length-replicate,
}
use radio_server.Kv4p.Encoder.{Samples, frame_samples, push}
use radio_server.Kv4p.Encoder.Blocks.{push_one}
use radio_server.Kv4p.Pacer.{
  max_buffer, silence, Sent, delivered, timed_out, closed, TxPacer, enqueue, next_send, send, stop,
  emit, pushed, tick,
}

-- The buffer is within its bound, and the encoder holds less than a frame.
pub record IsSteady (p : TxPacer) : Type 0 where
  pub buffered : length p.buf ≤ max_buffer
  pub held : length p.acc < frame_samples

-- One packet is one call of the transport, whatever it does.
record Calls (p p' : TxPacer) (n : ℕ) : Type 0 where
  handed_more : length p'.handed ≡ n + length p.handed
  same_buf : p'.buf ≡ p.buf
  same_acc : p'.acc ≡ p.acc

emit_one : (packets : List Samples) (p : TxPacer) → length packets ≡ 1 → Calls p (emit packets p) 1
unfolding emit
emit_one [] p e = absurd (omega arith)
emit_one (packet ∷ packet' ∷ packets) p e = absurd (omega arith)
emit_one (packet ∷ []) p e = go (next_send p.sends)
  where
    go :
        (s : Sent)
        → Calls p
            (elim s [
              | delivered ↦ send packet p
              | timed_out ↦ send packet p
              | closed ↦ stop (send packet p)
            ])
            1
    go delivered = record { handed_more = omega arith; same_buf = refl; same_acc = refl }
    go timed_out = record { handed_more = omega arith; same_buf = refl; same_acc = refl }
    go closed = record { handed_more = omega arith; same_buf = refl; same_acc = refl }

-- What a tick does: one call, and a steady pacer stays so.
record Ticks (p p' : TxPacer) : Type 0 where
  one_call : length p'.handed ≡ 1 + length p.handed
  steady : IsSteady p'

pushed-Ticks :
    (gain : ℕ → ℕ) (frame : Samples) (p : TxPacer)
    → length frame ≡ frame_samples
    → IsSteady p
    → Ticks p (pushed gain frame p)
pushed-Ticks gain frame p n s =
    let (one, same) = push_one gain frame p.acc n s.held in
    let (packets, acc) = push gain frame p.acc in
    let c = emit_one packets (record p { acc = acc }) one in
    record {
      one_call = c.handed_more;
      steady = record {
        buffered = omega (arith, s.buffered, ap length c.same_buf);
        held = omega (arith, s.held, same, ap length c.same_acc);
      };
    }

tick-Ticks : (gain : ℕ → ℕ) (p : TxPacer) → IsSteady p → Ticks p (tick gain p)
unfolding tick
tick-Ticks gain p s =
    if_intro (Ticks p) (leb frame_samples (length p.buf))
      (λ t.
        let big : frame_samples ≤ length p.buf = ground arith in
        let ticked =
          pushed-Ticks gain (take frame_samples p.buf) (record p { buf = drop frame_samples p.buf })
            (omega (arith, length-take frame_samples p.buf))
            (record {
              buffered = omega (arith, length-drop frame_samples p.buf, s.buffered);
              held = s.held;
            }) in
        record { one_call = ticked.one_call; steady = ticked.steady })
      (λ t. pushed-Ticks gain silence p (length-replicate {A = ℕ} frame_samples 0) s)

enqueue-IsSteady :
    (pcm : Samples) (p : TxPacer)
    → IsSteady p
    → IsSteady (enqueue pcm p) × (length (enqueue pcm p).handed ≡ length p.handed)
unfolding enqueue
enqueue-IsSteady pcm p s =
    let buf = p.buf ++ pcm in
    let overflow = length buf - max_buffer in
    let l = length-drop overflow buf in
    if_intro (λ p'. IsSteady p' × (length p'.handed ≡ length p.handed)) (length pcm == 0)
      (λ t. (s, refl))
      (λ t.
        if_intro (λ p'. IsSteady p' × (length p'.handed ≡ length p.handed)) (ltb 0 overflow)
          (λ t. (record { buffered = omega (arith, l); held = s.held }, refl))
          (λ t. (record { buffered = ground arith; held = s.held }, refl)))

-- What happens to a pacer while the key is held: PCM arrives, or a slot passes, which is one `tick`.
pub data Event : Type 0 where
  arrives : Samples → Event
  slot : Event

abbrev pub slots : List Event → ℕ
slots [] = 0
slots (arrives pcm ∷ es) = slots es
slots (slot ∷ es) = 1 + slots es

module _ (gain : ℕ → ℕ) where
  abbrev pub happens : TxPacer → Event → TxPacer
  happens p (arrives pcm) = enqueue pcm p
  happens p slot = tick gain p

  abbrev pub run : TxPacer → List Event → TxPacer
  run p [] = p
  run p (e ∷ es) = run (happens p e) es

  -- From an encoder that holds less than a frame, as the lead-in leaves it, and a buffer within its bound,
  -- whatever PCM arrives and in whichever pieces: each tick calls the transport with exactly one packet,
  -- also when it refuses some, and the buffer never outgrows its 16 frames.
  pub run_cadence :
      (es : List Event) (p : TxPacer)
      → IsSteady p
      → (length (run p es).handed ≡ slots es + length p.handed) × IsSteady (run p es)
  run_cadence [] p s = (omega arith, s)
  run_cadence (arrives pcm ∷ es) p s =
      let (s', e) = enqueue-IsSteady pcm p s in
      let (n, s'') = run_cadence es (enqueue pcm p) s' in (n ∙ ap (λ m. slots es + m) e, s'')
  run_cadence (slot ∷ es) p s =
      let t = tick-Ticks gain p s in
      let (n, s') = run_cadence es (tick gain p) t.steady in (omega (arith, n, t.one_call), s')
