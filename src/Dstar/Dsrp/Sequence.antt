-- ===== src/Dstar/Dsrp/Sequence.antt =====
-- The superframe of radio_server/dstar/dsrp.py: 21 frames, the first of which carries the sync.
use radio_server.Base.{
  ℕ, zero, suc, ◌+◌, ◌%◌, ◌<◌, ◌≡◌, ◌∙◌, ◌==◌, leb, if_intro, arith, if◌then◌else◌,
}
use radio_server.Dstar.Dsrp.{next_seq, seq_max, slow_data_for_seq, data_sync, slow_data_filler}

-- The sequence number of the frame that comes `n` after a frame numbered `seq_no`.
unfoldable pub seq_after : ℕ → ℕ → ℕ
seq_after zero seq_no = seq_no
seq_after (suc n) seq_no = seq_after n (next_seq seq_no)

seq_after_lem : (n s : ℕ) → s < 21 → seq_after n s ≡ (s + n) % 21
unfolding seq_after next_seq
seq_after_lem zero s h = omega arith
seq_after_lem (suc n) s h =
    if_intro (λ r. seq_after n r ≡ (s + suc n) % 21) (leb seq_max s)
      (λ t. let last : s ≡ 20 = ground arith in seq_after_lem n 0 (omega arith) ∙ omega arith)
      (λ f. seq_after_lem n (s + 1) (ground arith) ∙ omega arith)

-- In a stream that starts at sequence number 0, the frame `n` has the number `n` modulo 21, and it
-- carries the sync pattern exactly if that is 0, and the filler if not.
pub superframe :
    (n : ℕ)
    → (seq_after n 0 ≡ n % 21)
      × (slow_data_for_seq (seq_after n 0) ≡ (if n % 21 == 0 then data_sync else slow_data_filler))
unfolding slow_data_for_seq
superframe n =
    let e : seq_after n 0 ≡ n % 21 = seq_after_lem n 0 (omega arith) ∙ omega arith in (e, simp (e))
