-- ===== src/Entry/Windows.antt =====
-- `BufferedDtmfInput` of radio_server/audio/dtmf.py: audio is collected into windows, which a decoder
-- turns into keys, and the keys go through the framer. The decoder is a separate program, a parameter
-- here; `decoded` lists the windows that it was given, oldest first. The hook for each key has no
-- effect on the input and is left out.
pub mod Conserved
use radio_server.Base.{
  ℕ, Bool, true, false, ◌&&◌, not, List, [], ◌∷◌, ◌++◌, Option, none, some, length, leb, ◌==◌,
  if◌then◌else◌,
}
use radio_server.Entry.{DtmfFramer, feed}
use radio_server.Entry.Framing.{and_entry}

pub record BufferedDtmfInput : Type 0 where
  pub buf : List ℕ
  pub last_digit : Option ℕ
  pub framer : DtmfFramer
  pub decoded : List (List ℕ)

abbrev pub is_last : ℕ → Option ℕ → Bool
is_last d none = false
is_last d (some e) = d == e

abbrev pub is_empty : List ℕ → Bool
is_empty [] = true
is_empty (x ∷ xs) = false

module _ (decode : List ℕ → List ℕ) (timeout window_bytes : ℕ) (dedup : Bool) where
  -- The loop over the keys of a window.
  unfoldable pub feed_digits : ℕ → List ℕ → BufferedDtmfInput → List (List ℕ) × BufferedDtmfInput
  feed_digits now [] s = ([], s)
  feed_digits now (d ∷ ds) s =
      if dedup && is_last d s.last_digit
      then feed_digits now ds s
      else (let (entry, framer) = feed timeout d now s.framer in
          let (entries, s') =
            feed_digits now ds
              (record s { last_digit = if dedup then some d else s.last_digit; framer = framer }) in
          (and_entry entry entries, s'))

  unfoldable pub decode_window : ℕ → BufferedDtmfInput → List (List ℕ) × BufferedDtmfInput
  decode_window now s =
      if is_empty s.buf
      then ([], s)
      else (let digits = decode s.buf in
          let s' = record s { buf = []; decoded = s.decoded ++ (s.buf ∷ []) } in
          if dedup && is_empty digits
          then ([], record s' { last_digit = none })
          else feed_digits now digits s')

  unfoldable pub pump : List ℕ → ℕ → BufferedDtmfInput → List (List ℕ) × BufferedDtmfInput
  pump samples now s =
      let s' = record s { buf = s.buf ++ samples } in
      if leb window_bytes (length s'.buf) then decode_window now s' else ([], s')

  unfoldable pub flush : ℕ → BufferedDtmfInput → List (List ℕ) × BufferedDtmfInput
  flush now s = decode_window now s
