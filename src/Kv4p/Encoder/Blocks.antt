-- ===== src/Kv4p/Encoder/Blocks.antt =====
-- The blocks of radio_server/backends/kv4p/audio.py.
use radio_server.Base.{
  take-drop, ℕ, zero, suc, ◌+◌, ◌<◌, ◌≤◌, ◌≡◌, refl, ap, ◌∙◌, List, [], ◌∷◌, ◌++◌, All, length,
  take, drop, map, leb, if_intro, arith, append_assoc, length-append, length-take, length-drop,
}
use radio_server.Kv4p.Encoder.{Samples, frame_samples, blocks, push}

abbrev pub concat : List Samples → Samples
concat [] = []
concat (b ∷ bs) = b ++ concat bs

abbrev pub IsWhole : Samples → Type 0
IsWhole b = length b ≡ frame_samples

-- What re-blocking is: whole blocks, fewer samples left than a block, and no sample lost or moved.
pub record IsCut (all : Samples) (cut : List Samples × Samples) : Type 0 where
  pub whole : All IsWhole cut.0
  pub left_small : length cut.1 < frame_samples
  pub same_samples : concat cut.0 ++ cut.1 ≡ all

pub blocks-IsCut : (fuel : ℕ) (acc : Samples) → length acc ≤ fuel → IsCut acc (blocks fuel acc)
unfolding blocks
blocks-IsCut zero acc h = record { whole = tt; left_small = omega (arith, h); same_samples = refl }
blocks-IsCut (suc fuel) acc h =
    if_intro (IsCut acc) (leb frame_samples (length acc))
      (λ t.
        let big : frame_samples ≤ length acc = ground arith in
        let cut =
          blocks-IsCut fuel (drop frame_samples acc)
            (omega (arith, length-drop frame_samples acc)) in
        record {
          whole = (omega (arith, length-take frame_samples acc), cut.whole);
          left_small = cut.left_small;
          same_samples =
              append_assoc (take frame_samples acc)
                (concat (blocks fuel (drop frame_samples acc)).0)
                (blocks fuel (drop frame_samples acc)).1
              ∙ ap (λ l. take frame_samples acc ++ l) cut.same_samples
              ∙ take-drop frame_samples acc;
        })
      (λ t. record { whole = tt; left_small = ground arith; same_samples = refl })

-- The loop of a push ends, whatever the encoder holds and the gain makes of a sample: it has cut what was
-- held and what came into whole blocks and less than a block that it leaves, and loses and moves no sample.
pub push-IsCut :
    (gain : ℕ → ℕ) (frame acc : Samples) → IsCut (acc ++ map gain frame) (push gain frame acc)
unfolding push
push-IsCut gain frame acc =
    blocks-IsCut (length (acc ++ map gain frame)) (acc ++ map gain frame) (omega arith)

length-map : (f : ℕ → ℕ) (xs : Samples) → length (map f xs) ≡ length xs
length-map f [] = refl
length-map f (x ∷ xs) = ap suc (length-map f xs)

-- The number of blocks is what their samples make.
count_blocks :
    (bs : List Samples) (left : Samples) (n : ℕ)
    → All IsWhole bs
    → length left < frame_samples
    → length (concat bs ++ left) ≡ frame_samples + n
    → n < frame_samples
    → (length bs ≡ 1) × (length left ≡ n)
count_blocks [] left n w small e lt = absurd (omega arith)
count_blocks (b ∷ []) left n (one, w) small e lt =
    let l = length-append (b ++ []) left in
    let l' = length-append b [] in (refl, omega (arith, l, l', one))
count_blocks (b ∷ b' ∷ bs) left n (one, (two, w)) small e lt =
    let l = length-append (b ++ (b' ++ concat bs)) left in
    let l' = length-append b (b' ++ concat bs) in
    let l'' = length-append b' (concat bs) in absurd (omega (arith, l, l', l'', one, two))

-- A frame pushed into an encoder that holds less than a frame gives one packet, and as much is held.
pub push_one :
    (gain : ℕ → ℕ) (frame acc : Samples)
    → length frame ≡ frame_samples
    → length acc < frame_samples
    → (length (push gain frame acc).0 ≡ 1) × (length (push gain frame acc).1 ≡ length acc)
push_one gain frame acc n small =
    let cut = push-IsCut gain frame acc in
    count_blocks (push gain frame acc).0 (push gain frame acc).1 (length acc) cut.whole
      cut.left_small
      (ap length cut.same_samples
        ∙ length-append acc (map gain frame)
        ∙ omega (arith, length-map gain frame, n))
      small
