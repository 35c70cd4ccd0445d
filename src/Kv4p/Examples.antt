-- ===== src/Kv4p/Examples.antt =====
-- The theorems about radio_server/backends/kv4p/frames.py at concrete inputs.
use radio_server.Base.{ℕ, ◌≡◌, refl, [], ◌∷◌, ◌++◌, some, arith, replicate, length-replicate}
use radio_server.Kv4p.Kiss
use radio_server.Kv4p.Kiss.{
  Bytes, KissDecoder, fend, fesc, feed, process, append, pending, unescape, escape,
  build_kiss_frame, max_frame_size,
}
use radio_server.Kv4p.Kiss.RoundTrip.{holding, closed, build_all, feed-build_all}
use radio_server.Kv4p.Kiss.Oversize.{oversize_dropped, escape_before_fend}
use radio_server.Kv4p.Frame.{vendor, build_vendor_frame, parse_frame}
use radio_server.Kv4p.Frame.Dispatch.{vendor_round_trip}

-- A boot banner, then a frame with both bytes that are escaped.
abbrev wire : Bytes
wire = b'o' ∷ b'k' ∷ fend ∷ 6 ∷ fesc ∷ 0xDC ∷ fesc ∷ 0xDD ∷ 7 ∷ fend ∷ []

wire_decoded : feed Kiss.new wire ≡ ((6 ∷ 0xC0 ∷ 0xDB ∷ 7 ∷ []) ∷ [], holding [])
unfolding feed process append unescape pending
wire_decoded = refl

feed-build_all_example :
    feed (holding (1 ∷ [])) (build_all ((6, 0xC0 ∷ []) ∷ (0, 5 ∷ []) ∷ []))
    ≡ (closed (holding (1 ∷ [])) ++ ((6 ∷ 0xC0 ∷ []) ∷ (0 ∷ 5 ∷ []) ∷ []), holding [])
feed-build_all_example =
    feed-build_all (holding (1 ∷ [])) (6, 0xC0 ∷ []) ((0, 5 ∷ []) ∷ [])
      ((omega arith, omega arith, omega arith), ((omega arith, omega arith, omega arith), tt))

oversize_dropped_example :
    feed Kiss.new (build_kiss_frame 6 (replicate 2055 1)) ≡ (closed Kiss.new, holding [])
oversize_dropped_example =
    oversize_dropped Kiss.new 6 (replicate 2055 1) (omega arith) (omega arith)
      (omega (arith, length-replicate {0} {A = ℕ} 2055 1))

escape_before_fend_example :
    feed (holding (6 ∷ 1 ∷ [])) (fesc ∷ fend ∷ []) ≡ ((6 ∷ 1 ∷ []) ∷ [], holding [])
escape_before_fend_example = escape_before_fend 6 (1 ∷ [])

vendor_round_trip_example :
    (frame : Bytes) × (feed Kiss.new (build_vendor_frame 7 (0xC0 ∷ []))
      ≡ (closed Kiss.new ++ (frame ∷ []), holding []))
    × (parse_frame frame ≡ some (vendor 7 (0xC0 ∷ [])))
vendor_round_trip_example = vendor_round_trip Kiss.new 7 (0xC0 ∷ []) (omega arith)
