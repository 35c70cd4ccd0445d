-- ===== src/Kv4p/Pacer/Tail.antt =====
-- The end of a held key in radio_server/backends/kv4p/pacer.py.
use mathlib.Core.Path.{subst}
use radio_server.Base.{
  ℕ, ◌-◌, ◌<◌, ◌≡◌, refl, sym, ap, ◌∙◌, List, [], ◌∷◌, ◌++◌, length, map, replicate, ◌==◌, ==_iff,
  if_intro, arith, append-nil, append_assoc,
}
use radio_server.Kv4p.Encoder.{Samples, frame_samples, push, flush}
use radio_server.Kv4p.Encoder.Blocks.{concat, push-IsCut}
use radio_server.Kv4p.Pacer.{
  TxPacer, delivered, timed_out, closed, next_send, later_sends, send, stop, emit, pushed, flushed,
  flush_tail,
}

-- The samples that were handed to the transport, in order.
abbrev pub heard : List Samples → Samples
heard [] = []
heard (packet ∷ packets) = heard packets ++ packet

-- A transport that takes every packet.
record Takes (p p' : TxPacer) (samples : Samples) : Type 0 where
  takes_on : p'.sends ≡ []
  heard_on : heard p'.handed ≡ heard p.handed ++ samples
  same_acc : p'.acc ≡ p.acc

emit-Takes :
    (packets : List Samples) (p : TxPacer)
    → p.sends ≡ []
    → Takes p (emit packets p) (concat packets)
unfolding emit
emit-Takes [] p e = record {
  takes_on = e;
  heard_on = sym (append-nil (heard p.handed));
  same_acc = refl;
}
emit-Takes (packet ∷ packets) p e =
    let rest = emit packets (send packet p) in
    let same : emit (packet ∷ packets) p ≡ rest =
      ap
        (λ ss. elim (next_send ss) [
          | delivered ↦ rest
          | timed_out ↦ rest
          | closed ↦ stop (send packet p)
        ])
        e in
    let h = emit-Takes packets (send packet p) (ap later_sends e) in
    subst (λ p'. Takes p p' (packet ++ concat packets)) (sym same)
      (record {
        takes_on = h.takes_on;
        heard_on = h.heard_on ∙ append_assoc (heard p.handed) packet (concat packets);
        same_acc = h.same_acc;
      })

-- What ends a key: everything before it was heard, then `samples`, then fewer zeros than a frame has.
pub record Ends (p p' : TxPacer) (samples : Samples) : Type 0 where
  pub zeros : ℕ
  pub few : zeros < frame_samples
  pub heard_to_end : heard p'.handed ≡ heard p.handed ++ (samples ++ replicate zeros 0)

empty_lem : (xs : Samples) → length xs ≡ 0 → xs ≡ []
empty_lem [] e = refl
empty_lem (x ∷ xs) e = absurd (omega arith)

module _ (gain : ℕ → ℕ) where
  flushed-Ends :
      (p : TxPacer) → p.sends ≡ [] → length p.acc < frame_samples → Ends p (flushed gain p) p.acc
  unfolding flush
  flushed-Ends p e small =
      let pad = p.acc ++ replicate (frame_samples - length p.acc) 0 in
      if_intro (λ (x : List Samples × Samples). Ends p (emit x.0 (record p { acc = x.1 })) p.acc)
        (length p.acc == 0)
        (λ t.
          let none_held : p.acc ≡ [] = empty_lem p.acc ((==_iff (length p.acc) 0).0 t) in
          let h = emit-Takes [] (record p { acc = [] }) e in
          record {
            zeros = 0;
            few = omega arith;
            heard_to_end =
                h.heard_on ∙ ap (λ l. heard p.handed ++ l) (sym (append-nil p.acc ∙ none_held));
          })
        (λ t.
          let h = emit-Takes (pad ∷ []) (record p { acc = [] }) e in
          record {
            zeros = frame_samples - length p.acc;
            few = ground arith;
            heard_to_end = h.heard_on ∙ ap (λ l. heard p.handed ++ l) (append-nil pad);
          })

  pushed-Ends :
      (p : TxPacer)
      → p.sends ≡ []
      → Ends p (flushed gain (pushed gain p.buf (record p { buf = [] }))) (p.acc ++ map gain p.buf)
  pushed-Ends p e =
      let cut = push-IsCut gain p.buf p.acc in
      let (packets, left) = push gain p.buf p.acc in
      let q = emit packets (record p { buf = []; acc = left }) in
      let h = emit-Takes packets (record p { buf = []; acc = left }) e in
      let held : length q.acc < frame_samples =
        omega (arith, cut.left_small, ap length h.same_acc) in
      let f = flushed-Ends q h.takes_on held in
      record {
        zeros = f.zeros;
        few = f.few;
        heard_to_end =
            f.heard_to_end
            ∙ ap (λ l. l ++ (q.acc ++ replicate f.zeros 0)) h.heard_on
            ∙ append_assoc (heard p.handed) (concat packets) (q.acc ++ replicate f.zeros 0)
            ∙ ap (λ l. heard p.handed ++ l)
                (sym (append_assoc (concat packets) q.acc (replicate f.zeros 0))
                  ∙ ap (λ l. (concat packets ++ l) ++ replicate f.zeros 0) h.same_acc
                  ∙ ap (λ l. l ++ replicate f.zeros 0) cut.same_samples);
      }

  -- At the end of a key, with a transport that takes every packet and an encoder that holds less than a
  -- frame, nothing keyed is clipped: what the encoder held and then what was buffered is heard, followed by
  -- fewer zeros than a frame has.
  pub flush_tail-Ends :
      (p : TxPacer)
      → p.sends ≡ []
      → length p.acc < frame_samples
      → Ends p (flush_tail gain p) (p.acc ++ map gain p.buf)
  unfolding flush_tail
  flush_tail-Ends p e small =
      if_intro (λ (q : TxPacer). Ends p (flushed gain q) (p.acc ++ map gain p.buf))
        (length p.buf == 0)
        (λ t.
          let none_left : p.buf ≡ [] = empty_lem p.buf ((==_iff (length p.buf) 0).0 t) in
          let f = flushed-Ends (record p { buf = [] }) e small in
          record {
            zeros = f.zeros;
            few = f.few;
            heard_to_end =
                f.heard_to_end
                ∙ ap (λ l. heard p.handed ++ (l ++ replicate f.zeros 0))
                    (sym (ap (λ l. p.acc ++ map gain l) none_left ∙ append-nil p.acc));
          })
        (λ t. pushed-Ends p e)
