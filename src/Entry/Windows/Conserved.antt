-- ===== src/Entry/Windows/Conserved.antt =====
-- What becomes of the audio that is pumped into the input of radio_server/audio/dtmf.py.
use radio_server.Base.{
  ℕ, ◌<◌, ◌≤◌, Bool, false, ◌&&◌, ◌≡◌, refl, sym, ap, ◌∙◌, List, [], ◌∷◌, ◌++◌, none, some, length,
  leb, arith, All, if_intro, append-nil, append_assoc, if◌then◌else◌,
}
use mathlib.Core.Path.{subst}
use radio_server.Entry.{feed, DtmfFramer}
use radio_server.Entry.Windows.{
  BufferedDtmfInput, feed_digits, decode_window, pump, is_last, is_empty,
}

abbrev pub concat : List (List ℕ) → List ℕ
concat [] = []
concat (x ∷ xs) = x ++ concat xs

-- The windows that were decoded, and what waits for the next one.
abbrev pub heard : BufferedDtmfInput → List ℕ
heard s = concat s.decoded ++ s.buf

concat-snoc : (xs : List (List ℕ)) (x : List ℕ) → concat (xs ++ (x ∷ [])) ≡ concat xs ++ x
concat-snoc [] x = append-nil x
concat-snoc (y ∷ xs) x = ap (λ l. y ++ l) (concat-snoc xs x) ∙ sym (append_assoc y (concat xs) x)

abbrev pub audio : List (List ℕ × ℕ) → List ℕ
audio [] = []
audio ((samples, now) ∷ fs) = samples ++ audio fs

abbrev pub IsWindow : ℕ → List ℕ → Type 0
IsWindow w x = w ≤ length x

All-snoc :
    (w : ℕ) (xs : List (List ℕ)) (x : List ℕ)
    → All (IsWindow w) xs
    → IsWindow w x
    → All (IsWindow w) (xs ++ (x ∷ []))
All-snoc w [] x h e = (e, tt)
All-snoc w (y ∷ xs) x (h, hs) e = (h, All-snoc w xs x hs e)

nonempty : (x : List ℕ) → 0 < length x → is_empty x ≡ false
nonempty [] h = absurd (omega arith)
nonempty (y ∷ x) h = refl

abbrev pub fresh : DtmfFramer → BufferedDtmfInput
fresh framer = record { buf = []; last_digit = none; framer = framer; decoded = [] }

module _ (decode : List ℕ → List ℕ) (timeout window_bytes : ℕ) (dedup : Bool) where
  feed_digits-keeps :
      (now : ℕ) (ds : List ℕ) (s : BufferedDtmfInput)
      → ((feed_digits decode timeout window_bytes dedup now ds s).1.buf ≡ s.buf)
        × ((feed_digits decode timeout window_bytes dedup now ds s).1.decoded ≡ s.decoded)
  unfolding feed_digits
  feed_digits-keeps now [] s = (refl, refl)
  feed_digits-keeps now (d ∷ ds) s =
      if_intro
        (λ (r : List (List ℕ) × BufferedDtmfInput). (r.1.buf ≡ s.buf) × (r.1.decoded ≡ s.decoded))
        (dedup && is_last d s.last_digit) (λ e. feed_digits-keeps now ds s)
        (λ e. feed_digits-keeps now ds (record s {
          last_digit = if dedup then some d else s.last_digit;
          framer = (feed timeout d now s.framer).1;
        }))

  -- A window is decoded whole, and nothing is left of it.
  decode_window-takes :
      (now : ℕ) (s : BufferedDtmfInput)
      → is_empty s.buf ≡ false
      → ((decode_window decode timeout window_bytes dedup now s).1.buf ≡ [])
        × ((decode_window decode timeout window_bytes dedup now s).1.decoded
            ≡ s.decoded ++ (s.buf ∷ []))
  unfolding decode_window
  decode_window-takes now s e =
      let Taken = λ (r : List (List ℕ) × BufferedDtmfInput).
        (r.1.buf ≡ []) × (r.1.decoded ≡ s.decoded ++ (s.buf ∷ [])) in
      if_intro Taken (is_empty s.buf) (λ t. cc)
        (λ f.
          if_intro Taken (dedup && is_empty (decode s.buf)) (λ t. (refl, refl))
            (λ t.
              feed_digits-keeps now (decode s.buf)
                (record s { buf = []; decoded = s.decoded ++ (s.buf ∷ []) })))

  -- What waits is less than a window, and what was decoded was whole windows.
  abbrev IsWaiting : BufferedDtmfInput → Type 0
  IsWaiting s = (length s.buf < window_bytes) × All (IsWindow window_bytes) s.decoded

  abbrev Conserves : List ℕ → BufferedDtmfInput → BufferedDtmfInput → Type 0
  Conserves samples s s' = (heard s' ≡ heard s ++ samples) × IsWaiting s'

  pump_decodes :
      (samples : List ℕ) (now : ℕ) (s : BufferedDtmfInput)
      → 0 < window_bytes
      → IsWaiting s
      → window_bytes ≤ length (s.buf ++ samples)
      → Conserves samples s
          (decode_window decode timeout window_bytes dedup now
            (record s { buf = s.buf ++ samples })).1
  pump_decodes samples now s pos (lt, whole) le =
      let (b, d) =
        decode_window-takes now (record s { buf = s.buf ++ samples })
          (nonempty (s.buf ++ samples) (omega arith)) in
      let s' =
        (decode_window decode timeout window_bytes dedup now
          (record s { buf = s.buf ++ samples })).1 in
      (
        ap (λ l. concat s'.decoded ++ l) b
            ∙ append-nil (concat s'.decoded)
            ∙ ap concat d
            ∙ concat-snoc s.decoded (s.buf ++ samples)
            ∙ sym (append_assoc (concat s.decoded) s.buf samples),
        (
          subst (λ l. length l < window_bytes) (sym b) (omega arith),
          subst (All (IsWindow window_bytes)) (sym d)
              (All-snoc window_bytes s.decoded (s.buf ++ samples) whole le),
        ),
      )

  pump-Conserves :
      (samples : List ℕ) (now : ℕ) (s : BufferedDtmfInput)
      → 0 < window_bytes
      → IsWaiting s
      → Conserves samples s (pump decode timeout window_bytes dedup samples now s).1
  unfolding pump
  pump-Conserves samples now s pos (lt, whole) =
      if_intro (λ (r : List (List ℕ) × BufferedDtmfInput). Conserves samples s r.1)
        (leb window_bytes (length (s.buf ++ samples)))
        (λ t. pump_decodes samples now s pos (lt, whole) (ground arith))
        (λ t. (sym (append_assoc (concat s.decoded) s.buf samples), (ground arith, whole)))

  -- Frames of audio, each with its time.
  unfoldable pub pump_all : List (List ℕ × ℕ) → BufferedDtmfInput → BufferedDtmfInput
  pump_all [] s = s
  pump_all ((samples, now) ∷ fs) s =
      pump_all fs (pump decode timeout window_bytes dedup samples now s).1

  pump_all-Conserves :
      (fs : List (List ℕ × ℕ)) (s : BufferedDtmfInput)
      → 0 < window_bytes
      → IsWaiting s
      → Conserves (audio fs) s (pump_all fs s)
  unfolding pump_all
  pump_all-Conserves [] s pos h = (sym (append-nil (heard s)), h)
  pump_all-Conserves ((samples, now) ∷ fs) s pos h =
      let (e, h') = pump-Conserves samples now s pos h in
      let (es, hs) =
        pump_all-Conserves fs (pump decode timeout window_bytes dedup samples now s).1 pos h' in
      (es ∙ ap (λ l. l ++ audio fs) e ∙ append_assoc (heard s) samples (audio fs), hs)

  -- With a window of at least one byte, of any frames pumped into a new input every byte is in exactly
  -- one place and in order: the windows that were decoded, each at least a window long, and then what
  -- waits, which is less than a window. This holds whatever the decoder reads.
  pub audio_conserved :
      (fs : List (List ℕ × ℕ)) (framer : DtmfFramer)
      → 0 < window_bytes
      → (heard (pump_all fs (fresh framer)) ≡ audio fs)
        × (length (pump_all fs (fresh framer)).buf < window_bytes)
        × All (IsWindow window_bytes) (pump_all fs (fresh framer)).decoded
  audio_conserved fs framer pos =
      let (e, w) = pump_all-Conserves fs (fresh framer) pos (omega arith, tt) in (e, w.0, w.1)
