-- ===== src/Uvk5/Message/RoundTrip/Fixed.antt =====
-- The classes of radio_server/backends/uvk5/frames.py over one `struct` format: `unpack` after `pack`.
use mathlib.Core.Option.{some_inj}
use radio_server.Base.{
  ℕ, true, ◌≡◌, refl, sym, ap, ◌∙◌, List, ◌++◌, some, length, drop, take-append, drop-append,
}
use radio_server.Uvk5.Codec.{RoundTrips, fixed-RoundTrips, bare, empty_of, checked-some}
use radio_server.Uvk5.Message.Status.{Status, status_of, number}
use radio_server.Uvk5.Message.Command.{
  hello_of, hello, key_press_of, key_press, get_screen_of, get_screen, scan_of, scan,
  stock_set_modulation_of, stock_set_modulation, jet_scan_of, jet_scan,
}
use radio_server.Uvk5.Message.Reply.{
  register_info_of, register_info, gpio_info_of, gpio_info, jet_scan_reply_of, jet_scan_reply,
}
use radio_server.Uvk5.Message.Vfo.{
  set_vfo_checks, set_vfo_of, set_vfo, set_vfo_reply_of, set_vfo_statuses, set_vfo_reply,
}
use radio_server.Uvk5.Message.Modulation.{
  set_modulation_checks, set_modulation_of, set_modulation, set_modulation_reply_of,
  modulation_statuses, set_modulation_reply,
}
use radio_server.Uvk5.Message.Eeprom.{eeprom_read_checks, eeprom_read_of, eeprom_read}
use radio_server.Uvk5.Message.Broadcast.{
  broadcast_fm_reply_of, broadcast_fm_statuses, broadcast_fm_reply,
}

-- A class that restricts none of its fields.
abbrev pub Unchecked : {A : Type 0} → A → Type 0
Unchecked m = Unit

-- A status that is a member of its IntEnum when that has it.
abbrev pub IsNamed : List ℕ → Status → Type 0
IsNamed members status = status ≡ status_of members (number status)

pub bare-RoundTrips :
    {A : Type 0} (command : ℕ) (m : A) → ((n : A) → m ≡ n) → RoundTrips (bare command m) Unchecked
unfolding bare empty_of
bare-RoundTrips command m only n params v e =
    ap (empty_of m) (sym (some_inj.0 e)) ∙ ap some (only n)

pub hello-RoundTrips : RoundTrips hello Unchecked
unfolding hello_of
hello-RoundTrips = fixed-RoundTrips _ _ _ _ Unchecked (λ m _. refl)

pub key_press-RoundTrips : RoundTrips key_press Unchecked
unfolding key_press_of
key_press-RoundTrips = fixed-RoundTrips _ _ _ _ Unchecked (λ m _. refl)

pub get_screen-RoundTrips : RoundTrips get_screen Unchecked
unfolding get_screen_of
get_screen-RoundTrips = fixed-RoundTrips _ _ _ _ Unchecked (λ m _. refl)

pub scan-RoundTrips : RoundTrips scan Unchecked
unfolding scan_of
scan-RoundTrips = fixed-RoundTrips _ _ _ _ Unchecked (λ m _. refl)

pub stock_set_modulation-RoundTrips : RoundTrips stock_set_modulation Unchecked
unfolding stock_set_modulation_of
stock_set_modulation-RoundTrips = fixed-RoundTrips _ _ _ _ Unchecked (λ m _. refl)

pub jet_scan-RoundTrips : RoundTrips jet_scan Unchecked
unfolding jet_scan_of
jet_scan-RoundTrips = fixed-RoundTrips _ _ _ _ Unchecked (λ m _. refl)

pub register_info-RoundTrips : RoundTrips register_info Unchecked
unfolding register_info_of
register_info-RoundTrips = fixed-RoundTrips _ _ _ _ Unchecked (λ m _. refl)

pub gpio_info-RoundTrips : RoundTrips gpio_info Unchecked
unfolding gpio_info_of
gpio_info-RoundTrips = fixed-RoundTrips _ _ _ _ Unchecked (λ m _. refl)

pub set_vfo-RoundTrips : RoundTrips set_vfo (λ m. set_vfo_checks m ≡ true)
unfolding set_vfo_of
set_vfo-RoundTrips =
    fixed-RoundTrips _ _ _ _ (λ m. set_vfo_checks m ≡ true) (λ m v. checked-some set_vfo_checks m v)

pub set_modulation-RoundTrips : RoundTrips set_modulation (λ m. set_modulation_checks m ≡ true)
unfolding set_modulation_of
set_modulation-RoundTrips =
    fixed-RoundTrips _ _ _ _ (λ m. set_modulation_checks m ≡ true)
      (λ m v. checked-some set_modulation_checks m v)

pub eeprom_read-RoundTrips : RoundTrips eeprom_read (λ m. eeprom_read_checks m ≡ true)
unfolding eeprom_read_of
eeprom_read-RoundTrips =
    fixed-RoundTrips _ _ _ _ (λ m. eeprom_read_checks m ≡ true)
      (λ m v. checked-some eeprom_read_checks m v)

pub set_vfo_reply-RoundTrips : RoundTrips set_vfo_reply (λ m. IsNamed set_vfo_statuses m.status)
unfolding set_vfo_reply_of
set_vfo_reply-RoundTrips =
    fixed-RoundTrips _ _ _ _ (λ m. IsNamed set_vfo_statuses m.status)
      (λ m v. ap (λ s. some (record m { status = s })) (sym v))

pub set_modulation_reply-RoundTrips :
    RoundTrips set_modulation_reply (λ m. IsNamed modulation_statuses m.status)
unfolding set_modulation_reply_of
set_modulation_reply-RoundTrips =
    fixed-RoundTrips _ _ _ _ (λ m. IsNamed modulation_statuses m.status)
      (λ m v. ap (λ s. some (record m { status = s })) (sym v))

pub broadcast_fm_reply-RoundTrips :
    RoundTrips broadcast_fm_reply (λ m. IsNamed broadcast_fm_statuses m.status)
unfolding broadcast_fm_reply_of
broadcast_fm_reply-RoundTrips =
    fixed-RoundTrips _ _ _ _ (λ m. IsNamed broadcast_fm_statuses m.status)
      (λ m v. ap (λ s. some (record m { status = s })) (sym v))

pub jet_scan_reply-RoundTrips :
    RoundTrips jet_scan_reply (λ m. (length m.freqs ≡ 16) × (length m.sigs ≡ 16))
unfolding jet_scan_reply_of
jet_scan_reply-RoundTrips =
    fixed-RoundTrips _ _ _ _ (λ m. (length m.freqs ≡ 16) × (length m.sigs ≡ 16))
      (λ m v.
        ap (λ l. some (record m { freqs = l; sigs = drop 16 (m.freqs ++ m.sigs) }))
          (take-append 16 m.freqs m.sigs v.0)
        ∙ ap (λ l. some (record m { sigs = l })) (drop-append 16 m.freqs m.sigs v.0))
