-- ===== src/Dstar/Header/Layout.antt =====
-- Where radio_server/dstar/header.py puts the fields of a header.
use radio_server.Base.{
  ℕ, zero, suc, ◌+◌, ◌-◌, ◌%◌, ◌≡◌, refl, sym, ap, ◌∙◌, [], ◌∷◌, ◌++◌, length, take, drop,
  replicate, arith, length-append, length-take, length-replicate, drop-append, append-nil,
}
use radio_server.Dstar.Dsrp.{Bytes}
use radio_server.Dstar.Header.{Fields, pad, put, header_body}

pub length-pad : (n : ℕ) (xs : Bytes) → length (pad n xs) ≡ n
unfolding pad
length-pad n xs =
    length-append (take n xs) (replicate (n - length (take n xs)) b' ')
    ∙ omega (arith, length-take n xs, length-replicate {A = ℕ} (n - length (take n xs)) b' ')

-- A slice behind a known prefix leaves the prefix.
pub put_over :
    (off k : ℕ) (xs pre ys : Bytes)
    → k ≡ length pre + off
    → put k xs (pre ++ ys) ≡ pre ++ put off xs ys
unfolding put
put_over off k xs [] ys e = ap (λ i. put i xs ys) (e ∙ omega arith)
put_over off zero xs (y ∷ pre) ys e = absurd (omega arith)
put_over off (suc k) xs (y ∷ pre) ys e =
    let skip : suc k + length xs ≡ suc (k + length xs) = omega arith in
    ap (λ i. y ∷ (take k (pre ++ ys) ++ (xs ++ drop i (y ∷ (pre ++ ys))))) skip
    ∙ ap (λ l. y ∷ l) (put_over off k xs pre ys (omega arith))

put_here : (xs mid ys : Bytes) → length mid ≡ length xs → put 0 xs (mid ++ ys) ≡ xs ++ ys
unfolding put
put_here xs mid ys e =
    ap (λ i. xs ++ drop i (mid ++ ys)) (omega arith)
    ∙ ap (λ l. xs ++ l) (drop-append (length mid) mid ys refl)

-- A slice that overwrites `mid`, behind `pre`.
put_mid :
    (off : ℕ) (xs pre mid ys : Bytes)
    → off ≡ length pre
    → length mid ≡ length xs
    → put off xs (pre ++ (mid ++ ys)) ≡ pre ++ (xs ++ ys)
put_mid off xs pre mid ys e m =
    put_over 0 off xs pre (mid ++ ys) (omega arith) ∙ ap (λ l. pre ++ l) (put_here xs mid ys m)

abbrev zeros : ℕ → Bytes
zeros n = replicate n 0

abbrev pub head : ℕ → ℕ → ℕ → Bytes
head a b c = a ∷ b ∷ c ∷ []

module _ (a b c : ℕ) (p2 p1 u m y : Bytes) where
  flags_put : put 2 (c ∷ []) (put 1 (b ∷ []) (put 0 (a ∷ []) (zeros 39))) ≡ head a b c ++ zeros 36
  unfolding put
  flags_put = refl

  module _ (l2 : length p2 ≡ 8) (l1 : length p1 ≡ 8) (lu : length u ≡ 8) (lm : length m ≡ 8) where
    rpt_put : put 3 p2 (put 11 p1 (head a b c ++ zeros 36)) ≡ head a b c ++ (p2 ++ (p1 ++ zeros 20))
    rpt_put =
        ap (put 3 p2) (put_mid 11 p1 (a ∷ b ∷ c ∷ zeros 8) (zeros 8) (zeros 20) refl (sym l1))
        ∙ put_mid 3 p2 (head a b c) (zeros 8) (p1 ++ zeros 20) refl (sym l2)

    ur_put :
        put 19 u (head a b c ++ (p2 ++ (p1 ++ zeros 20)))
        ≡ head a b c ++ (p2 ++ (p1 ++ (u ++ zeros 12)))
    ur_put =
        put_over 16 19 u (head a b c) (p2 ++ (p1 ++ zeros 20)) refl
        ∙ ap (λ l. head a b c ++ l)
            (put_over 8 16 u p2 (p1 ++ zeros 20) (omega arith)
              ∙ ap (λ l. p2 ++ l) (put_mid 8 u p1 (zeros 8) (zeros 12) (sym l1) (sym lu)))

    my1_put :
        put 27 m (head a b c ++ (p2 ++ (p1 ++ (u ++ zeros 12))))
        ≡ head a b c ++ (p2 ++ (p1 ++ (u ++ (m ++ zeros 4))))
    my1_put =
        put_over 24 27 m (head a b c) (p2 ++ (p1 ++ (u ++ zeros 12))) refl
        ∙ ap (λ l. head a b c ++ l)
            (put_over 16 24 m p2 (p1 ++ (u ++ zeros 12)) (omega arith)
              ∙ ap (λ l. p2 ++ l)
                  (put_over 8 16 m p1 (u ++ zeros 12) (omega arith)
                    ∙ ap (λ l. p1 ++ l) (put_mid 8 m u (zeros 8) (zeros 4) (sym lu) (sym lm))))

    my2_put :
        length y ≡ 4
        → put 35 y (head a b c ++ (p2 ++ (p1 ++ (u ++ (m ++ zeros 4)))))
          ≡ head a b c ++ (p2 ++ (p1 ++ (u ++ (m ++ y))))
    my2_put ly =
        put_over 32 35 y (head a b c) (p2 ++ (p1 ++ (u ++ (m ++ zeros 4)))) refl
        ∙ ap (λ l. head a b c ++ l)
            (put_over 24 32 y p2 (p1 ++ (u ++ (m ++ zeros 4))) (omega arith)
              ∙ ap (λ l. p2 ++ l)
                  (put_over 16 24 y p1 (u ++ (m ++ zeros 4)) (omega arith)
                    ∙ ap (λ l. p1 ++ l)
                        (put_over 8 16 y u (m ++ zeros 4) (omega arith)
                          ∙ ap (λ l. u ++ l)
                              (put_mid 8 y m (zeros 4) [] (sym lm) (sym ly)
                                ∙ ap (λ l. m ++ l) (append-nil y)))))

    body_put :
        length y ≡ 4
        → put 35 y (
            put 27 m (
              put 19 u (
                put 3 p2
                  (put 11 p1 (put 2 (c ∷ []) (put 1 (b ∷ []) (put 0 (a ∷ []) (zeros 39))))))))
          ≡ head a b c ++ (p2 ++ (p1 ++ (u ++ (m ++ y))))
    body_put ly = simp (flags_put, rpt_put, ur_put, my1_put, my2_put ly)

-- The body of a header is, in this order, the three flags, RPT2, RPT1, UR and MY1 in 8 bytes each and
-- MY2 in 4, each padded with spaces or cut.
pub header_layout :
    (f : Fields)
    → header_body f
      ≡ f.flags.0 % 256
        ∷ f.flags.1 % 256
        ∷ f.flags.2 % 256
        ∷ (pad 8 f.rpt2 ++ (pad 8 f.rpt1 ++ (pad 8 f.ur ++ (pad 8 f.my1 ++ pad 4 f.my2))))
unfolding header_body
header_layout f =
    let (a, b, c) = f.flags in
    body_put (a % 256) (b % 256) (c % 256) (pad 8 f.rpt2) (pad 8 f.rpt1) (pad 8 f.ur) (pad 8 f.my1)
      (pad 4 f.my2) (length-pad 8 f.rpt2) (length-pad 8 f.rpt1) (length-pad 8 f.ur)
      (length-pad 8 f.my1) (length-pad 4 f.my2)
