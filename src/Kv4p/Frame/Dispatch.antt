-- ===== src/Kv4p/Frame/Dispatch.antt =====
-- The kv4p vendor frames of radio_server/backends/kv4p/frames.py from end to end.
use radio_server.Base.{ℕ, ◌%◌, ◌≤◌, [], ◌∷◌, ◌++◌, some, length, ◌≡◌, ap, ◌∙◌, arith, ◌↔◌}
use radio_server.Kv4p.Kiss.{Bytes, proto_mtu, KissDecoder, feed}
use radio_server.Kv4p.Kiss.RoundTrip.{closed, holding, feed-build_kiss_frame}
use radio_server.Kv4p.Frame.{
  vendor, build_vendor_frame, parse_frame, parse_vendor, vendor_prefix, protocol_version,
}

-- A vendor frame with at most an MTU of payload, fed to the decoder in any state, comes out as one
-- frame behind what it closes, and that frame is dispatched as the command byte and the payload.
pub vendor_round_trip :
    (d : KissDecoder) (command : ℕ) (payload : Bytes)
    → length payload ≤ proto_mtu
    → (frame : Bytes) × (feed d (build_vendor_frame command payload)
        ≡ (closed d ++ (frame ∷ []), holding []))
      × (parse_frame frame ≡ some (vendor (command % 256) payload))
unfolding build_vendor_frame parse_frame parse_vendor
vendor_round_trip d command payload h = (
  6 ∷ (vendor_prefix ++ (protocol_version ∷ command % 256 ∷ payload)),
  feed-build_kiss_frame d 6 _ (omega arith) (omega arith) (omega arith),
  ground arith,
)

-- The payload of a vendor frame, read back from an accepted parse.
parse_vendor-shape :
    (p : Bytes) (command : ℕ) (payload : Bytes)
    → parse_vendor p ≡ some (vendor command payload)
    → p ≡ vendor_prefix ++ (protocol_version ∷ command ∷ payload)
unfolding parse_vendor
parse_vendor-shape [] command payload h = cc
parse_vendor-shape (a ∷ []) command payload h = cc
parse_vendor-shape (a ∷ b ∷ []) command payload h = cc
parse_vendor-shape (a ∷ b ∷ c ∷ []) command payload h = cc
parse_vendor-shape (a ∷ b ∷ c ∷ d ∷ []) command payload h = cc
parse_vendor-shape (a ∷ b ∷ c ∷ d ∷ e ∷ []) command payload h = cc
parse_vendor-shape (a ∷ b ∷ c ∷ d ∷ e ∷ f ∷ rest) command payload h = ground arith

parse_frame-shape :
    (frame : Bytes) (command : ℕ) (payload : Bytes)
    → parse_frame frame ≡ some (vendor command payload)
    → frame ≡ 6 ∷ (vendor_prefix ++ (protocol_version ∷ command ∷ payload))
unfolding parse_frame
parse_frame-shape [] command payload h = cc
parse_frame-shape (b ∷ p) command payload h = ground (arith, parse_vendor-shape p command payload)

-- Exactly which decoded frames are vendor frames: port 0, KISS command 6, the prefix and the version,
-- then the command and the payload.
pub parse_frame-vendor :
    (frame : Bytes) (command : ℕ) (payload : Bytes)
    → (parse_frame frame ≡ some (vendor command payload))
      ↔ (frame ≡ 6 ∷ (vendor_prefix ++ (protocol_version ∷ command ∷ payload)))
unfolding parse_frame parse_vendor
parse_frame-vendor frame command payload =
    (parse_frame-shape frame command payload, λ e. ap parse_frame e ∙ ground arith)
