-- ===== src/Tx/Tot/Watch.antt =====
-- The watchdog of radio_server/tx/tot.py over any interleaving of one caller and the timer threads.
use radio_server.Base.{
  ℕ, zero, suc, ◌∙◌, if◌then◌else◌, ◌<◌, Bool, true, false, not, ◌≡◌, ◌≢◌, refl, List, [], ◌∷◌,
  none, some, arith, if_intro,
}
use radio_server.Tx.Tot.{
  TotRadio, arm, fire_locked, forced, ptt_locked, key, transmit_enter, send, transmit_exit, close,
}
use radio_server.Tx.Tot.Threads.{
  Caller, between, pressing, sending, leaving, Threads, Event, press, play, shut, proceed, timer,
  unkey, start, entered, fired, unkeys, apply, run,
}

-- A held key has a live watchdog (unless the cap is off), a latched radio holds no key, and the live
-- token is one that was issued.
pub record IsWatched (t : TotRadio) : Type 0 where
  pub watched : t.keyed ≡ true → 0 < t.tot → t.token ≢ none
  pub latched : t.locked ≡ true → (t.keyed ≡ false) × (t.token ≡ none)
  pub issued_before : (k : ℕ) → t.token ≡ some k → k < t.issued

-- Whether a one-shot is under way.
abbrev one_shot : Caller → Bool
one_shot between = false
one_shot (pressing on) = false
one_shot (sending audio b) = b
one_shot (leaving b) = b

abbrev threads : TotRadio → Caller → ℕ → Threads
threads t c n = record { radio = t; caller = c; unkeying = n }

-- While a one-shot is under way nothing keys or latches the radio.
record IsKept (s : Threads) : Type 0 where
  radio_watched : IsWatched s.radio
  one_shot_free : one_shot s.caller ≡ true → (s.radio.keyed ≡ false) × (s.radio.locked ≡ false)

-- A step that leaves the flags and the token alone.
same_flags :
    (t t' : TotRadio)
    → t'.keyed ≡ t.keyed
    → t'.locked ≡ t.locked
    → t'.token ≡ t.token
    → t'.issued ≡ t.issued
    → t'.tot ≡ t.tot
    → IsWatched t
    → IsWatched t'
same_flags t t' a b c d e w = ground arith

fire_locked-IsKept :
    (k : ℕ) (t : TotRadio) (c : Caller) (n : ℕ)
    → IsKept (threads t c n)
    → IsKept (fired (fire_locked k t) (threads t c n))
unfolding fire_locked
fire_locked-IsKept k t c n h = ground arith

ptt_locked-IsWatched : (on : Bool) (t : TotRadio) → IsWatched t → IsWatched (ptt_locked on t)
unfolding ptt_locked
ptt_locked-IsWatched on t w = ground arith

arm-IsWatched : (t : TotRadio) → IsWatched t → t.locked ≡ false → IsWatched (arm t)
unfolding arm
arm-IsWatched t w l = ground arith

arm_flags : (t : TotRadio) → ((arm t).keyed ≡ t.keyed) × ((arm t).locked ≡ t.locked)
unfolding arm
arm_flags t = ground arith

exit-IsWatched : (t : TotRadio) → IsWatched t → t.keyed ≡ false → IsWatched (transmit_exit true t)
unfolding transmit_exit
exit-IsWatched t w h = ground arith

enter-IsKept :
    (audio : List ℕ) (t : TotRadio) (n : ℕ)
    → IsWatched t
    → IsKept (entered audio (transmit_enter t) n)
unfolding transmit_enter
enter-IsKept audio t n w =
    if_intro (λ x. IsKept (entered audio x n)) t.locked
      (λ l. record { radio_watched = w; one_shot_free = λ e. cc }) (λ l. go t.keyed refl l)
  where
    go :
        (b : Bool)
        → t.keyed ≡ b
        → t.locked ≡ false
        → IsKept (entered audio (some (not b), if b then t else arm t) n)
    go true e l = record { radio_watched = w; one_shot_free = λ e. cc }
    go false e l = record {
      radio_watched = arm-IsWatched t w l;
      one_shot_free = λ _. ((arm_flags t).0 ∙ e, (arm_flags t).1 ∙ l);
    }

close-IsWatched : (t : TotRadio) → IsWatched t → IsWatched (close t)
unfolding close
close-IsWatched t w = ground arith

proceed-IsKept :
    (t : TotRadio) (c : Caller) (n : ℕ)
    → IsKept (threads t c n)
    → IsKept (apply (threads t c n) proceed)
unfolding key send
proceed-IsKept t between n h = h
proceed-IsKept t (pressing on) n h = record {
  radio_watched = same_flags t (key on t) refl refl refl refl refl h.radio_watched;
  one_shot_free = λ e. cc;
}
proceed-IsKept t (sending audio b) n h = record {
  radio_watched = same_flags t (send audio t) refl refl refl refl refl h.radio_watched;
  one_shot_free = h.one_shot_free;
}
proceed-IsKept t (leaving true) n h = record {
  radio_watched = exit-IsWatched t h.radio_watched (h.one_shot_free refl).0;
  one_shot_free = λ e. cc;
}
proceed-IsKept t (leaving false) n h = record {
  radio_watched = unfold transmit_exit in h.radio_watched;
  one_shot_free = λ e. cc;
}

unkey-IsKept :
    (t : TotRadio) (c : Caller) (n : ℕ) → IsKept (threads t c n) → IsKept (unkeys n (threads t c n))
unfolding forced
unkey-IsKept t c zero h = h
unkey-IsKept t c (suc n) h = record {
  radio_watched = same_flags t (forced t) refl refl refl refl refl h.radio_watched;
  one_shot_free = h.one_shot_free;
}

apply-IsKept :
    (t : TotRadio) (c : Caller) (n : ℕ) (e : Event)
    → IsKept (threads t c n)
    → IsKept (apply (threads t c n) e)
apply-IsKept t between n (press on) h = record {
  radio_watched = ptt_locked-IsWatched on t h.radio_watched;
  one_shot_free = λ e. cc;
}
apply-IsKept t between n (play audio) h = enter-IsKept audio t n h.radio_watched
apply-IsKept t between n shut h = record {
  radio_watched = close-IsWatched t h.radio_watched;
  one_shot_free = λ e. cc;
}
apply-IsKept t c n proceed h = proceed-IsKept t c n h
apply-IsKept t c n (timer k) h = fire_locked-IsKept k t c n h
apply-IsKept t c n unkey h = unkey-IsKept t c n h
apply-IsKept t _ n _ h = h

run_from-IsKept : (s : Threads) (es : List Event) → IsKept s → IsKept (run s es)
unfolding run
run_from-IsKept s [] h = h
run_from-IsKept s (e ∷ es) h =
    run_from-IsKept (apply s e) es (apply-IsKept s.radio s.caller s.unkeying e h)

start-IsKept : (tot : ℕ) → IsKept (start tot)
start-IsKept tot = record {
  radio_watched = record { watched = λ h _ e. cc; latched = λ h. cc; issued_before = λ k e. cc };
  one_shot_free = λ e. cc;
}

-- Whatever one caller calls, and however the timer threads run between its locked sections and radio
-- calls: a held key has a live watchdog while the cap is on, a latched radio holds no key and has no
-- live timer, and the live token is one that was issued.
pub run-IsWatched : (tot : ℕ) (es : List Event) → IsWatched (run (start tot) es).radio
run-IsWatched tot es = (run_from-IsKept (start tot) es (start-IsKept tot)).radio_watched
