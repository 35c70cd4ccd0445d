-- ===== src/Dstar/Dsrp/RoundTrip.antt =====
-- What the gateway reads from the packets that radio_server/dstar/dsrp.py builds.
use radio_server.Base.{
  ℕ, ◌+◌, ◌*◌, ◌/◌, ◌%◌, Bool, true, false, ◌≡◌, sym, ap, ◌∙◌, [], ◌∷◌, ◌++◌, some, length, take,
  ◌==◌, arith, take-append, length-append, append-nil, if◌then◌else◌,
}
use radio_server.Dstar.Dsrp.{
  Bytes, header, data_frame, build_header_packet, build_data_packet, build_dv_frame, parse, end_bit,
  voice_frame,
}

take_all : (n : ℕ) (xs : Bytes) → length xs ≡ n → take n xs ≡ xs
take_all n xs h = sym (ap (take n) (append-nil xs)) ∙ take-append n xs [] h

-- A header packet of a 41-byte radio header is read as that header under the session id modulo
-- 2 ^ 16.
pub header_round_trip :
    (h : Bytes) (session_id : ℕ)
    → length h ≡ 41
    → (p : Bytes) × (build_header_packet h session_id ≡ some p)
      × (parse p ≡ header (session_id % 65536) h)
unfolding build_header_packet parse
header_round_trip h sid e =
    let t : take 41 h ≡ h = take_all 41 h e in
    let id : sid % 65536 / 256 * 256 + sid % 65536 % 256 ≡ sid % 65536 = omega arith in
    (
      b'D' ∷ b'S' ∷ b'R' ∷ b'P' ∷ 0x20 ∷ sid % 65536 / 256 ∷ sid % 65536 % 256 ∷ 0 ∷ h,
      ground arith,
      grind arith,
    )

data_read :
    (dv : Bytes) (a b seq errors : ℕ)
    → length dv ≡ 12
    → parse (b'D' ∷ b'S' ∷ b'R' ∷ b'P' ∷ 0x21 ∷ a ∷ b ∷ seq ∷ errors ∷ dv)
      ≡ data_frame (a * 256 + b) (seq % 64) (seq / 64 % 2 == 1) errors dv
unfolding parse
data_read dv a b seq errors e = let t : take 12 dv ≡ dv = take_all 12 dv e in grind arith

end_read :
    (n : ℕ) (end : Bool)
    → ((n % 64 + (if end then 64 else 0)) % 64 ≡ n % 64)
      × (((n % 64 + (if end then 64 else 0)) / 64 % 2 == 1) ≡ end)
end_read n true = (omega arith, ground arith)
end_read n false = (omega arith, ground arith)

-- A data packet of an AMBE voice frame and slow data is read as the session id modulo 2 ^ 16, the
-- sequence number modulo 64, the end flag, the error count modulo 256 and the DV frame, whose voice
-- part is the AMBE frame.
pub data_round_trip :
    (ambe slow : Bytes) (session_id seq_no errors : ℕ) (end : Bool)
    → length ambe ≡ 9
    → length slow ≡ 3
    → (dv p : Bytes) × (build_dv_frame ambe slow ≡ some dv)
      × (build_data_packet dv session_id seq_no end errors ≡ some p)
      × (parse p ≡ data_frame (session_id % 65536) (seq_no % 64) end (errors % 256) dv)
      × (voice_frame dv ≡ ambe)
unfolding build_dv_frame build_data_packet parse voice_frame
data_round_trip ambe slow sid n errors end ha hs =
    let len : length (ambe ++ slow) ≡ 12 = length-append ambe slow ∙ omega arith in
    let (low, flag) = end_read n end in
    let id : sid % 65536 / 256 * 256 + sid % 65536 % 256 ≡ sid % 65536 = omega arith in
    (
      ambe ++ slow,
      b'D'
          ∷ b'S'
          ∷ b'R'
          ∷ b'P'
          ∷ 0x21
          ∷ sid % 65536 / 256
          ∷ sid % 65536 % 256
          ∷ (n % 64 + (if end then end_bit else 0))
          ∷ errors % 256
          ∷ (ambe ++ slow),
      ground arith,
      ground arith,
      data_read (ambe ++ slow) (sid % 65536 / 256) (sid % 65536 % 256)
            (n % 64 + (if end then end_bit else 0)) (errors % 256) len
          ∙ simp (id, low, flag),
      take-append 9 ambe slow ha,
    )
