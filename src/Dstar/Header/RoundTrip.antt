-- ===== src/Dstar/Header/RoundTrip.antt =====
-- What radio_server/dstar/header.py reads from the headers that it builds.
use radio_server.Base.{
  ℕ, zero, suc, ◌+◌, ◌%◌, true, false, ◌≡◌, refl, sym, ap, ◌∙◌, [], ◌∷◌, ◌++◌, some, map, length,
  take, drop, ltb, arith, length-append, take-append, drop-append, append-nil, append_assoc,
}
use radio_server.Dstar.Dsrp.{Bytes, decode_byte, eq_bytes}
use radio_server.Dstar.Header.{
  Fields, pad, header_body, build_header, checksum_bytes, checksum_ok, field, parse_header,
}
use radio_server.Dstar.Header.Layout.{length-pad, header_layout, head}

drop_over : (off k : ℕ) (pre ys : Bytes) → k ≡ length pre + off → drop k (pre ++ ys) ≡ drop off ys
drop_over off k [] ys e = ap (λ i. drop i ys) (e ∙ omega arith)
drop_over off zero (y ∷ pre) ys e = absurd (omega arith)
drop_over off (suc k) (y ∷ pre) ys e = drop_over off k pre ys (omega arith)

eq_bytes_refl : (xs : Bytes) → eq_bytes xs xs ≡ true
eq_bytes_refl [] = refl
eq_bytes_refl (x ∷ xs) = let ih = eq_bytes_refl xs in grind arith

length-checksum_bytes : (xs : Bytes) → length (checksum_bytes xs) ≡ 2
unfolding checksum_bytes
length-checksum_bytes xs = refl

checksum_ok_built :
    (body : Bytes) → length body ≡ 39 → checksum_ok (body ++ checksum_bytes body) ≡ true
unfolding checksum_ok
checksum_ok_built body e =
    let cs = checksum_bytes body in
    let n : length (body ++ cs) ≡ 41 =
      length-append body cs ∙ omega (arith, length-checksum_bytes body) in
    let w : take 2 (drop 39 (body ++ cs)) ≡ cs =
      ap (take 2) (drop-append 39 body cs e ∙ sym (append-nil cs))
      ∙ take-append 2 cs [] (length-checksum_bytes body) in
    let b : take 39 (body ++ cs) ≡ body = take-append 39 body cs e in
    let same = eq_bytes_refl cs in grind arith

length-wire :
    (a b c : ℕ) (p2 p1 u m y : Bytes)
    → length p2 ≡ 8
    → length p1 ≡ 8
    → length u ≡ 8
    → length m ≡ 8
    → length y ≡ 4
    → length (head a b c ++ (p2 ++ (p1 ++ (u ++ (m ++ y))))) ≡ 39
length-wire a b c p2 p1 u m y l2 l1 lu lm ly = omega (
  arith,
  length-append p2 (p1 ++ (u ++ (m ++ y))),
  length-append p1 (u ++ (m ++ y)),
  length-append u (m ++ y),
  length-append m y,
)

module _ (a b c : ℕ) (p2 p1 u m y cs : Bytes) where
  abbrev wire : Bytes
  wire = head a b c ++ (p2 ++ (p1 ++ (u ++ (m ++ (y ++ cs)))))

  module _ (l2 : length p2 ≡ 8) (l1 : length p1 ≡ 8) (lu : length u ≡ 8) (lm : length m ≡ 8) where
    rpt2_read : field wire 3 8 ≡ map decode_byte p2
    unfolding field
    rpt2_read = ap (map decode_byte) (take-append 8 p2 (p1 ++ (u ++ (m ++ (y ++ cs)))) l2)

    rpt1_read : field wire 11 8 ≡ map decode_byte p1
    unfolding field
    rpt1_read = ap (map decode_byte) (
        ap (take 8) (drop_over 0 8 p2 (p1 ++ (u ++ (m ++ (y ++ cs)))) (omega arith))
        ∙ take-append 8 p1 (u ++ (m ++ (y ++ cs))) l1)

    ur_read : field wire 19 8 ≡ map decode_byte u
    unfolding field
    ur_read = ap (map decode_byte) (
        ap (take 8) (
          drop_over 8 16 p2 (p1 ++ (u ++ (m ++ (y ++ cs)))) (omega arith)
          ∙ drop_over 0 8 p1 (u ++ (m ++ (y ++ cs))) (omega arith))
        ∙ take-append 8 u (m ++ (y ++ cs)) lu)

    my1_read : field wire 27 8 ≡ map decode_byte m
    unfolding field
    my1_read = ap (map decode_byte) (
        ap (take 8) (
          drop_over 16 24 p2 (p1 ++ (u ++ (m ++ (y ++ cs)))) (omega arith)
          ∙ drop_over 8 16 p1 (u ++ (m ++ (y ++ cs))) (omega arith)
          ∙ drop_over 0 8 u (m ++ (y ++ cs)) (omega arith))
        ∙ take-append 8 m (y ++ cs) lm)

    my2_read : length y ≡ 4 → field wire 35 4 ≡ map decode_byte y
    unfolding field
    my2_read ly = ap (map decode_byte) (
        ap (take 4) (
          drop_over 24 32 p2 (p1 ++ (u ++ (m ++ (y ++ cs)))) (omega arith)
          ∙ drop_over 16 24 p1 (u ++ (m ++ (y ++ cs))) (omega arith)
          ∙ drop_over 8 16 u (m ++ (y ++ cs)) (omega arith)
          ∙ drop_over 0 8 m (y ++ cs) (omega arith))
        ∙ take-append 4 y cs ly)

    wire_read :
        length y ≡ 4
        → parse_header wire
          ≡ some (
            record {
              rpt1 = map decode_byte p1;
              rpt2 = map decode_byte p2;
              ur = map decode_byte u;
              my1 = map decode_byte m;
              my2 = map decode_byte y;
              flags = (a, b, c);
            },
            checksum_ok wire,
          )
    unfolding parse_header
    wire_read ly =
        let long : ltb (length wire) 39 ≡ false =
          let n2 = length-append p2 (p1 ++ (u ++ (m ++ (y ++ cs)))) in
          let n1 = length-append p1 (u ++ (m ++ (y ++ cs))) in
          let nu = length-append u (m ++ (y ++ cs)) in
          let nm = length-append m (y ++ cs) in let ny = length-append y cs in ground arith in
        simp (long, rpt1_read, rpt2_read, ur_read, my1_read, my2_read ly)

-- The fields as they are read: padded with spaces or cut to their width, and decoded.
abbrev pub on_air : Fields → Fields
on_air f = record {
  rpt1 = map decode_byte (pad 8 f.rpt1);
  rpt2 = map decode_byte (pad 8 f.rpt2);
  ur = map decode_byte (pad 8 f.ur);
  my1 = map decode_byte (pad 8 f.my1);
  my2 = map decode_byte (pad 4 f.my2);
  flags = (f.flags.0 % 256, f.flags.1 % 256, f.flags.2 % 256);
}

length-header_body : (f : Fields) → length (header_body f) ≡ 39
length-header_body f =
    ap length (header_layout f)
    ∙ length-wire (f.flags.0 % 256) (f.flags.1 % 256) (f.flags.2 % 256) (pad 8 f.rpt2)
        (pad 8 f.rpt1) (pad 8 f.ur) (pad 8 f.my1) (pad 4 f.my2) (length-pad 8 f.rpt2)
        (length-pad 8 f.rpt1) (length-pad 8 f.ur) (length-pad 8 f.my1) (length-pad 4 f.my2)

built-wire :
    (f : Fields)
    → build_header f
      ≡ wire
          (f.flags.0 % 256)
          (f.flags.1 % 256)
          (f.flags.2 % 256)
          (pad 8 f.rpt2)
          (pad 8 f.rpt1)
          (pad 8 f.ur)
          (pad 8 f.my1)
          (pad 4 f.my2)
          (checksum_bytes (header_body f))
unfolding build_header
built-wire f = ap (λ l. l ++ checksum_bytes (header_body f)) (header_layout f) ∙ simp (append_assoc)

-- A header that is built is read as its fields, each padded or cut to its width, and its checksum
-- verifies.
pub parse_header-build_header : (f : Fields) → parse_header (build_header f) ≡ some (on_air f, true)
unfolding build_header
parse_header-build_header f =
    ap parse_header (built-wire f)
    ∙ wire_read (f.flags.0 % 256) (f.flags.1 % 256) (f.flags.2 % 256) (pad 8 f.rpt2) (pad 8 f.rpt1)
        (pad 8 f.ur) (pad 8 f.my1) (pad 4 f.my2) (checksum_bytes (header_body f))
        (length-pad 8 f.rpt2) (length-pad 8 f.rpt1) (length-pad 8 f.ur) (length-pad 8 f.my1)
        (length-pad 4 f.my2)
    ∙ ap (λ ok. some (on_air f, ok))
        (sym (ap checksum_ok (built-wire f))
          ∙ checksum_ok_built (header_body f) (length-header_body f))
