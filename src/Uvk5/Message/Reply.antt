-- ===== src/Uvk5/Message/Reply.antt =====
-- The replies of radio_server/backends/uvk5/frames.py that are no status.
use radio_server.Base.{
  and_then, ℕ, List, [], ◌∷◌, ◌++◌, Option, none, some, length, take, drop, replicate, ◌==◌,
  if◌then◌else◌,
}
use radio_server.Base.Struct
use radio_server.Base.Struct.{Bytes, pack_bytes, unpack_from}
use radio_server.Uvk5.Codec.{Codec, fixed}

-- `version` is `16s`; `challenge` has four numbers, and two bytes are skipped before it.
pub record ImHere : Type 0 where
  pub version : Bytes
  pub has_custom_aes_key : ℕ
  pub in_lock_screen : ℕ
  pub challenge : ℕ × ℕ × ℕ × ℕ

abbrev pub im_here_format : List ℕ
im_here_format = 1 ∷ 1 ∷ 2 ∷ 4 ∷ 4 ∷ 4 ∷ 4 ∷ []

unfoldable pub im_here_pack : ImHere → Option Bytes
im_here_pack m =
    and_then
      (Struct.pack im_here_format (
        m.has_custom_aes_key ∷ m.in_lock_screen ∷ 0 ∷ m.challenge.0 ∷ m.challenge.1 ∷ m.challenge.2
        ∷ m.challenge.3 ∷ []))
      (λ rest. some (pack_bytes 16 m.version ++ rest))

unfoldable pub im_here_of : Bytes → List ℕ → Option ImHere
im_here_of version (aes ∷ lock ∷ skipped ∷ c0 ∷ c1 ∷ c2 ∷ c3 ∷ []) = some (record {
  version = version;
  has_custom_aes_key = aes;
  in_lock_screen = lock;
  challenge = (c0, c1, c2, c3);
})
im_here_of version _ = none

abbrev pub im_here : Codec ImHere
im_here = record {
  command = 0x0515;
  pack = im_here_pack;
  unpack = λ params.
      and_then (Struct.unpack im_here_format (drop 16 params)) (im_here_of (take 16 params));
}

-- `signals` is `100s`.
pub record ScanReply : Type 0 where
  pub length : ℕ
  pub sync : ℕ
  pub signals : Bytes

unfoldable pub scan_reply_pack : ScanReply → Option Bytes
scan_reply_pack m =
    and_then (Struct.pack (1 ∷ 1 ∷ []) (m.length ∷ m.sync ∷ []))
      (λ head. some (head ++ pack_bytes 100 m.signals))

unfoldable pub scan_reply_of : Bytes → List ℕ → Option ScanReply
scan_reply_of signals (length ∷ sync ∷ []) =
    some (record { length = length; sync = sync; signals = signals })
scan_reply_of signals _ = none

unfoldable pub scan_reply_unpack : Bytes → Option ScanReply
scan_reply_unpack params =
    if length params == 102
    then and_then (Struct.unpack (1 ∷ 1 ∷ []) (take 2 params)) (scan_reply_of (drop 2 params))
    else none

abbrev pub scan_reply : Codec ScanReply
scan_reply = record { command = 0x0908; pack = scan_reply_pack; unpack = scan_reply_unpack }

pub record RegisterInfo : Type 0 where
  pub register : ℕ
  pub value : ℕ

unfoldable pub register_info_of : List ℕ → Option RegisterInfo
register_info_of (register ∷ value ∷ []) = some (record { register = register; value = value })
register_info_of _ = none

abbrev pub register_info : Codec RegisterInfo
register_info = fixed 0x0951 (2 ∷ 2 ∷ []) (λ m. m.register ∷ m.value ∷ []) register_info_of

pub record GpioInfo : Type 0 where
  pub gpio : ℕ
  pub bit : ℕ

unfoldable pub gpio_info_of : List ℕ → Option GpioInfo
gpio_info_of (gpio ∷ bit ∷ []) = some (record { gpio = gpio; bit = bit })
gpio_info_of _ = none

abbrev pub gpio_info : Codec GpioInfo
gpio_info = fixed 0x0961 (1 ∷ 1 ∷ []) (λ m. m.gpio ∷ m.bit ∷ []) gpio_info_of

-- Sixteen frequencies and sixteen signals.
pub record JetScanReply : Type 0 where
  pub freqs : List ℕ
  pub sigs : List ℕ

unfoldable pub jet_scan_reply_of : List ℕ → Option JetScanReply
jet_scan_reply_of fields = some (record { freqs = take 16 fields; sigs = drop 16 fields })

abbrev pub jet_scan_reply : Codec JetScanReply
jet_scan_reply =
    fixed 0x0988 (replicate 16 4 ++ replicate 16 2) (λ m. m.freqs ++ m.sigs) jet_scan_reply_of
