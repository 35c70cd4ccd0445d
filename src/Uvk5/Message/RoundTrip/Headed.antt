-- ===== src/Uvk5/Message/RoundTrip/Headed.antt =====
-- The classes of radio_server/backends/uvk5/frames.py with a run of bytes before or behind a format:
-- `unpack` after `pack`.
use mathlib.Core.Option.{some_inj}
use radio_server.Base.{
  and_then-some, and_then, ℕ, ◌+◌, ◌-◌, true, false, ◌≡◌, refl, sym, ap, ◌∙◌, List, [], ◌∷◌, ◌++◌,
  Option, none, some, length, take, drop, replicate, ltb, ◌==◌, if◌then◌else◌, arith, take-append,
  drop-append, length-append, append-nil,
}
use radio_server.Base.Struct
use radio_server.Base.Struct.{
  length-pack, Bytes, calcsize, fields, pack_bytes, pack-fits, length-fields, unpack-pack,
}
use radio_server.Uvk5.Codec.{RoundTrips, checked, checked-some}
use radio_server.Uvk5.Message.Eeprom.{
  sized, eeprom_read_reply, eeprom_read_reply_pack, eeprom_read_reply_unpack, eeprom_read_reply_of,
  eeprom_write, eeprom_write_checks, eeprom_write_pack, eeprom_write_unpack, eeprom_write_of,
  eeprom_write_reply, eeprom_write_reply_unpack, eeprom_write_reply_of,
}
use radio_server.Uvk5.Message.Reply.{
  im_here, im_here_format, im_here_pack, im_here_of, scan_reply, scan_reply_pack, scan_reply_of,
  scan_reply_unpack,
}
use radio_server.Uvk5.Message.RoundTrip.Fixed.{Unchecked}

take_all : {A : Type 0} (n : ℕ) (xs : List A) → length xs ≡ n → take n xs ≡ xs
take_all n xs e = sym (ap (take n) (append-nil xs)) ∙ take-append n xs [] e

-- A header and a body: what `unpack` finds of it.
headed :
    (format values : List ℕ) (body params : Bytes)
    → and_then (Struct.pack format values) (λ head. some (head ++ body)) ≡ some params
    → (Struct.unpack format (take (calcsize format) params) ≡ some values)
      × (drop (calcsize format) params ≡ body)
      × (length params ≡ calcsize format + length body)
headed format values body params e =
    let (head, packed, shape) = and_then-some (Struct.pack format values) _ params e in
    let n = length-pack format values head packed in
    let s = sym (some_inj.0 shape) in
    (
      ap (λ l. Struct.unpack format (take (calcsize format) l)) s
          ∙ ap (Struct.unpack format) (take-append (calcsize format) head body n)
          ∙ unpack-pack format values head packed,
      ap (drop (calcsize format)) s ∙ drop-append (calcsize format) head body n,
      ap length s ∙ length-append head body ∙ ap (λ n. n + length body) n,
    )

sized_exact :
    {A : Type 0} (f : Bytes → Option A) (body : Bytes) → sized (length body) f body ≡ f body
sized_exact f body =
    let t : ltb (length body) (length body) ≡ false = ground arith in
    ap (λ t. if t then none else f (take (length body) body)) t
    ∙ ap f (take_all (length body) body refl)

-- A reply whose `size` is the length of its data.
pub eeprom_read_reply-RoundTrips : RoundTrips eeprom_read_reply (λ m. m.size ≡ length m.body)
unfolding eeprom_read_reply_pack eeprom_read_reply_unpack eeprom_read_reply_of
eeprom_read_reply-RoundTrips m params valid e =
    let (u, d, n) = headed (2 ∷ 1 ∷ 1 ∷ []) (m.offset ∷ m.size ∷ m.padding ∷ []) m.body params e in
    let t : ltb (length params) 4 ≡ false = ground arith in
    let f = λ (body : Bytes). some (record m { body = body }) in
    ap
      (λ t.
        if t
        then none
        else and_then (Struct.unpack (2 ∷ 1 ∷ 1 ∷ []) (take 4 params))
            (eeprom_read_reply_of (drop 4 params)))
      t
    ∙ ap (λ o. and_then o (eeprom_read_reply_of (drop 4 params))) u
    ∙ ap (sized m.size f) d
    ∙ ap (λ n. sized n f m.body) valid
    ∙ sized_exact f m.body

pub eeprom_write-RoundTrips : RoundTrips eeprom_write (λ m. eeprom_write_checks m ≡ true)
unfolding eeprom_write_pack eeprom_write_unpack eeprom_write_of
eeprom_write-RoundTrips m params valid e =
    let values = m.offset ∷ length m.body ∷ m.allow_password ∷ m.timestamp ∷ [] in
    let (u, d, n) = headed (2 ∷ 1 ∷ 1 ∷ 4 ∷ []) values m.body params e in
    let t : ltb (length params) 8 ≡ false = ground arith in
    let f = λ (body : Bytes). checked eeprom_write_checks (record m { body = body }) in
    ap
      (λ t.
        if t
        then none
        else and_then (Struct.unpack (2 ∷ 1 ∷ 1 ∷ 4 ∷ []) (take 8 params))
            (eeprom_write_of (drop 8 params)))
      t
    ∙ ap (λ o. and_then o (eeprom_write_of (drop 8 params))) u
    ∙ ap (sized (length m.body) f) d
    ∙ sized_exact f m.body
    ∙ checked-some eeprom_write_checks m valid

pub eeprom_write_reply-RoundTrips : RoundTrips eeprom_write_reply Unchecked
unfolding eeprom_write_reply_unpack eeprom_write_reply_of
eeprom_write_reply-RoundTrips m params valid e =
    let n = length-pack (2 ∷ []) (m.offset ∷ []) params e in
    let t : ltb (length params) 2 ≡ false = ground arith in
    ap
      (λ t.
        if t then none else and_then (Struct.unpack (2 ∷ []) (take 2 params)) eeprom_write_reply_of)
      t
    ∙ ap (λ l. and_then (Struct.unpack (2 ∷ []) l) eeprom_write_reply_of) (take_all 2 params n)
    ∙ ap (λ o. and_then o eeprom_write_reply_of) (unpack-pack (2 ∷ []) (m.offset ∷ []) params e)

pack_bytes-exact : (n : ℕ) (bs : Bytes) → length bs ≡ n → pack_bytes n bs ≡ bs
unfolding pack_bytes
pack_bytes-exact n bs e =
    let z : n - length bs ≡ 0 = omega arith in
    ap (λ k. take n bs ++ replicate k 0) z ∙ append-nil (take n bs) ∙ take_all n bs e

-- A version of sixteen bytes.
pub im_here-RoundTrips : RoundTrips im_here (λ m. length m.version ≡ 16)
unfolding im_here_pack im_here_of
im_here-RoundTrips m params valid e =
    let values =
      m.has_custom_aes_key ∷ m.in_lock_screen ∷ 0 ∷ m.challenge.0 ∷ m.challenge.1 ∷ m.challenge.2
      ∷ m.challenge.3 ∷ [] in
    let (rest, packed, shape) = and_then-some (Struct.pack im_here_format values) _ params e in
    let s : params ≡ m.version ++ rest =
      sym (some_inj.0 shape) ∙ ap (λ v. v ++ rest) (pack_bytes-exact 16 m.version valid) in
    ap (λ l. and_then (Struct.unpack im_here_format (drop 16 l)) (im_here_of (take 16 l))) s
    ∙ ap (λ l. and_then (Struct.unpack im_here_format l) (im_here_of (take 16 (m.version ++ rest))))
        (drop-append 16 m.version rest valid)
    ∙ ap (λ o. and_then o (im_here_of (take 16 (m.version ++ rest))))
        (unpack-pack im_here_format values rest packed)
    ∙ ap (λ v. some (record m { version = v })) (take-append 16 m.version rest valid)

-- A hundred signals.
pub scan_reply-RoundTrips : RoundTrips scan_reply (λ m. length m.signals ≡ 100)
unfolding scan_reply_pack scan_reply_unpack scan_reply_of
scan_reply-RoundTrips m params valid e =
    let exact = pack_bytes-exact 100 m.signals valid in
    let (u, d, n) =
      headed (1 ∷ 1 ∷ []) (m.length ∷ m.sync ∷ []) (pack_bytes 100 m.signals) params e in
    let t : (length params == 102) ≡ true = ground (arith, ap length exact) in
    ap
      (λ t.
        if t
        then and_then (Struct.unpack (1 ∷ 1 ∷ []) (take 2 params)) (scan_reply_of (drop 2 params))
        else none)
      t
    ∙ ap (λ o. and_then o (scan_reply_of (drop 2 params))) u
    ∙ ap (λ s. some (record m { signals = s })) (d ∙ exact)
