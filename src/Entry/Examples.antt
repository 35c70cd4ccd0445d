-- ===== src/Entry/Examples.antt =====
-- The theorems about the framer of radio_server/audio/dtmf.py at concrete inputs.
use radio_server.Base.{ℕ, ◌≡◌, ◌<◌, true, List, [], ◌∷◌, ◌++◌, some, arith, length, All}
use radio_server.Entry.{DtmfFramer, clear_key, submit_key}
use radio_server.Entry.Framing.{type_in, digits, entry_exact}
use radio_server.Entry.Windows.Conserved.{heard, pump_all, fresh, audio, IsWindow, audio_conserved}

abbrev partial : DtmfFramer
partial = record { buffer = b'7' ∷ []; last_at = some 3 }

entry_exact_example :
    (type_in 30 100
      ((clear_key, 0) ∷ (b'1', 9) ∷ (((b'2', 9) ∷ []) ++ ((submit_key, 29) ∷ [])))
      partial).0
    ≡ (b'1' ∷ digits ((b'2', 9) ∷ [])) ∷ []
entry_exact_example =
    entry_exact 30 partial 100 b'1' 9 29 ((b'2', 9) ∷ []) (omega arith, omega arith, omega arith)
      ((omega arith, omega arith, omega arith), tt) (omega arith)

-- A decoder that hears the key 1 in any window.
abbrev ones : List ℕ → List ℕ
ones window = b'1' ∷ []

abbrev frames : List (List ℕ × ℕ)
frames = ((1 ∷ 2 ∷ 3 ∷ []), 5) ∷ ((4 ∷ 5 ∷ []), 6) ∷ ((6 ∷ []), 7) ∷ []

audio_conserved_example :
    (heard (pump_all ones 30 4 true frames (fresh partial)) ≡ audio frames)
    × (length (pump_all ones 30 4 true frames (fresh partial)).buf < 4)
    × All (IsWindow 4) (pump_all ones 30 4 true frames (fresh partial)).decoded
audio_conserved_example = audio_conserved ones 30 4 true frames partial (omega arith)
