-- ===== src/Uvk5/Frame/Resync.antt =====
-- `Uvk5Decoder` of radio_server/backends/uvk5/frames.py after bytes that are no whole frames.
use mathlib.Core.Path.{subst}
use radio_server.Base.{
  ℕ, ◌+◌, ◌-◌, ◌*◌, ◌<◌, ◌≤◌, Bool, false, ◌||◌, ◌≡◌, ◌≢◌, refl, sym, ap, ◌∙◌, List, [], ◌∷◌, ◌++◌,
  length, All, map, arith, if_intro, ◌==◌, ltb, leb, if◌then◌else◌, length-append,
}
use radio_server.Base.Struct.{Bytes}
use radio_server.Uvk5.Frame.{
  max_payload_size, Stage, idle, cd, len_lo, len_hi, in_data, crc_lo, crc_hi, dc, ba, Uvk5Decoder,
  new, at_stage, step, feed,
}
use radio_server.Uvk5.Frame.RoundTrip.{payload_of, IsNoise, IsStream, feed_stream}

-- What `_LEN_HI` lets through: a payload that is longer than what has been collected of it.
abbrev pub InBounds : Stage → Uvk5Decoder → Type 0
InBounds idle d = Unit
InBounds cd d = Unit
InBounds len_lo d = Unit
InBounds len_hi d = Unit
InBounds in_data d = (length d.buf < d.size) × (d.size ≤ max_payload_size)
InBounds crc_lo d = Unit
InBounds crc_hi d = Unit
InBounds dc d = Unit
InBounds ba d = Unit

abbrev pub IsBounded : Uvk5Decoder → Type 0
IsBounded d = InBounds d.stage d

-- How many bytes a started frame can still take.
abbrev rank : Stage → Uvk5Decoder → ℕ
rank idle d = 0
rank ba d = 1
rank dc d = 2
rank crc_hi d = 3
rank crc_lo d = 4
rank in_data d = 4 + (d.size - length d.buf)
rank len_hi d = 259
rank len_lo d = 260
rank cd d = 261

rank-max : (s : Stage) (d : Uvk5Decoder) → InBounds s d → rank s d ≤ 261
rank-max idle d h = omega arith
rank-max ba d h = omega arith
rank-max dc d h = omega arith
rank-max crc_hi d h = omega arith
rank-max crc_lo d h = omega arith
rank-max in_data d h = omega (arith, h.0, h.1)
rank-max len_hi d h = omega arith
rank-max len_lo d h = omega arith
rank-max cd d h = omega arith

-- A step keeps to the bounds, whatever the byte, from a stage that the decoder is in.
step-IsBounded :
    (s : Stage) (b : ℕ) (d : Uvk5Decoder) → d.stage ≡ s → InBounds s d → IsBounded (step s b d).1
unfolding step
step-IsBounded idle b d e h =
    if_intro IsBounded (b == 0xAB) (λ t. tt) (λ t. subst (λ s. InBounds s d) (sym e) tt)
step-IsBounded cd b d e h = if_intro IsBounded (b == 0xCD) (λ t. tt) (λ t. tt)
step-IsBounded len_lo b d e h = tt
step-IsBounded len_hi b d e h =
    let size = d.size + b * 256 in
    if_intro IsBounded (size == 0 || ltb max_payload_size size) (λ t. tt)
      (λ t. (ground arith, ground arith))
step-IsBounded in_data b d e h =
    let n = length-append d.buf (b ∷ []) in
    if_intro IsBounded (leb d.size (length (d.buf ++ (b ∷ [])))) (λ t. tt)
      (λ t.
        subst (λ s. InBounds s (record d { buf = d.buf ++ (b ∷ []) })) (sym e) (ground arith, h.1))
step-IsBounded crc_lo b d e h = tt
step-IsBounded crc_hi b d e h = tt
step-IsBounded dc b d e h = if_intro IsBounded (b == 0xDC) (λ t. tt) (λ t. tt)
step-IsBounded ba b d e h = tt

-- Whatever is fed, the decoder never collects more than a payload of the greatest size.
pub feed-IsBounded : (d : Uvk5Decoder) (bs : Bytes) → IsBounded d → IsBounded (feed d bs).1
unfolding feed
feed-IsBounded d [] h = h
feed-IsBounded d (b ∷ bs) h =
    feed-IsBounded (step d.stage b d).1 bs (step-IsBounded d.stage b d refl h)

-- A byte that starts no frame takes one off the rank.
step_rank :
    (s : Stage) (b : ℕ) (d : Uvk5Decoder)
    → d.stage ≡ s
    → InBounds s d
    → b ≢ 0xAB
    → rank (step s b d).1.stage (step s b d).1 ≤ rank s d - 1
unfolding step
step_rank idle b d e h n =
    let t : (b == 0xAB) ≡ false = ground arith in
    omega (
      arith,
      ap (λ t. rank (if t then at_stage cd d else d).stage (if t then at_stage cd d else d)) t,
      ap (λ s. rank s d) e,
    )
step_rank cd b d e h n =
    if_intro (λ d'. rank d'.stage d' ≤ 260) (b == 0xCD) (λ t. omega arith) (λ t. omega arith)
step_rank len_lo b d e h n = omega arith
step_rank len_hi b d e h n =
    let size = d.size + b * 256 in
    if_intro (λ d'. rank d'.stage d' ≤ 258) (size == 0 || ltb max_payload_size size)
      (λ t. omega arith) (λ t. let small : size ≤ max_payload_size = ground arith in omega arith)
step_rank in_data b d e h n =
    let l = length-append d.buf (b ∷ []) in
    if_intro (λ d'. rank d'.stage d' ≤ 4 + (d.size - length d.buf) - 1)
      (leb d.size (length (d.buf ++ (b ∷ [])))) (λ t. omega (arith, h.0))
      (λ t. omega (arith, h.0, l, ap (λ s. rank s (record d { buf = d.buf ++ (b ∷ []) })) e))
step_rank crc_lo b d e h n = omega arith
step_rank crc_hi b d e h n = omega arith
step_rank dc b d e h n =
    if_intro (λ d'. rank d'.stage d' ≤ 1) (b == 0xDC) (λ t. omega arith) (λ t. omega arith)
step_rank ba b d e h n = omega arith

rank_zero : (s : Stage) (d : Uvk5Decoder) → rank s d ≡ 0 → s ≡ idle
rank_zero idle d e = refl
rank_zero ba d e = absurd (omega arith)
rank_zero dc d e = absurd (omega arith)
rank_zero crc_hi d e = absurd (omega arith)
rank_zero crc_lo d e = absurd (omega arith)
rank_zero in_data d e = absurd (omega arith)
rank_zero len_hi d e = absurd (omega arith)
rank_zero len_lo d e = absurd (omega arith)
rank_zero cd d e = absurd (omega arith)

feed_quiet :
    (d : Uvk5Decoder) (quiet : Bytes)
    → IsBounded d
    → All IsNoise quiet
    → rank d.stage d ≤ length quiet
    → (feed d quiet).1.stage ≡ idle
unfolding feed
feed_quiet d [] h all n = rank_zero d.stage d (omega arith)
feed_quiet d (b ∷ quiet) h (noise, all) n =
    feed_quiet (step d.stage b d).1 quiet (step-IsBounded d.stage b d refl h) all
      (omega (arith, step_rank d.stage b d refl h noise))

options_kept : (s : Stage) (b : ℕ) (d : Uvk5Decoder) → (step s b d).1.obfuscated ≡ d.obfuscated
unfolding step
options_kept idle b d =
    if_intro (λ (d' : Uvk5Decoder). d'.obfuscated ≡ d.obfuscated) (b == 0xAB) (λ t. refl)
      (λ t. refl)
options_kept cd b d =
    if_intro (λ (d' : Uvk5Decoder). d'.obfuscated ≡ d.obfuscated) (b == 0xCD) (λ t. refl)
      (λ t. refl)
options_kept len_lo b d = refl
options_kept len_hi b d =
    let size = d.size + b * 256 in
    if_intro (λ (d' : Uvk5Decoder). d'.obfuscated ≡ d.obfuscated)
      (size == 0 || ltb max_payload_size size) (λ t. refl) (λ t. refl)
options_kept in_data b d =
    if_intro (λ (d' : Uvk5Decoder). d'.obfuscated ≡ d.obfuscated)
      (leb d.size (length (d.buf ++ (b ∷ [])))) (λ t. refl) (λ t. refl)
options_kept crc_lo b d = refl
options_kept crc_hi b d = refl
options_kept dc b d =
    if_intro (λ (d' : Uvk5Decoder). d'.obfuscated ≡ d.obfuscated) (b == 0xDC) (λ t. refl)
      (λ t. refl)
options_kept ba b d = refl

feed_options : (d : Uvk5Decoder) (bs : Bytes) → (feed d bs).1.obfuscated ≡ d.obfuscated
unfolding feed
feed_options d [] = refl
feed_options d (b ∷ bs) = feed_options (step d.stage b d).1 bs ∙ options_kept d.stage b d

-- However a fresh decoder was fed, a truncated frame included, once 261 bytes have passed that start no
-- frame it decodes every frame of a stream that follows, in order.
pub feed_resync :
    (o v : Bool) (junk quiet : Bytes) (ms : List (ℕ × Bytes)) (w : Bytes)
    → All IsNoise quiet
    → 261 ≤ length quiet
    → IsStream o ms w
    → (feed (feed (feed (new o v) junk).1 quiet).1 w).0 ≡ map payload_of ms
feed_resync o v junk quiet ms w all n stream =
    let d = (feed (new o v) junk).1 in
    let bounded = feed-IsBounded (new o v) junk tt in
    let e = feed_options d quiet ∙ feed_options (new o v) junk in
    (feed_stream (feed d quiet).1 ms w
      (feed_quiet d quiet bounded all (omega (arith, rank-max d.stage d bounded)))
      (subst (λ o. IsStream o ms w) (sym e) stream)).0
