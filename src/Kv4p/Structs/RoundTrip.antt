-- ===== src/Kv4p/Structs/RoundTrip.antt =====
-- The structs of radio_server/backends/kv4p/frames.py: `unpack` after `pack`.
use radio_server.Base.{
  ◌<◌, true, ◌≡◌, refl, sym, ap, ◌∙◌, ◌++◌, Option, none, some, length, take, drop, ◌==◌, ==_iff,
  if◌then◌else◌, and_then, and_then-some, arith, length-append, take-append, drop-append,
}
use radio_server.Base.Int.{ℤ, pos, negsuc}
use radio_server.Base.Struct.{Bytes, fits, pack-fits, length-pack, unpack-pack}
use mathlib.Core.Option.{some_inj}
use radio_server.Kv4p.Structs.{
  of_signed, to_signed, Float32, of_float, Version, version_format, version_values, version_of,
  version_pack, version_unpack, HostDesiredState, host_desired_state_format,
  host_desired_state_values, host_desired_state_of, host_desired_state_pack,
  host_desired_state_unpack, DeviceState, device_state_format, device_state_values, device_state_of,
  device_state_pack, device_state_unpack, WindowUpdate, window_update_format, window_update_values,
  window_update_of, window_update_pack, window_update_unpack, Hello, hello_pack, hello_unpack,
}

signed_byte : (z : ℤ) → of_signed 1 z < 256 → to_signed 1 (of_signed 1 z) ≡ z
unfolding of_signed to_signed
signed_byte (pos n) h = ground arith
signed_byte (negsuc n) h = ground arith

signed_word : (z : ℤ) → of_signed 4 z < 4294967296 → to_signed 4 (of_signed 4 z) ≡ z
unfolding of_signed to_signed
signed_word (pos n) h = ground arith
signed_word (negsuc n) h = ground arith

-- What `pack` accepts of a WindowUpdate, `unpack` gives back.
pub window_update_unpack-pack :
    (m : WindowUpdate) (bytes : Bytes)
    → window_update_pack m ≡ some bytes
    → window_update_unpack bytes ≡ some m
unfolding window_update_pack window_update_unpack window_update_of fits
window_update_unpack-pack m bytes e =
    let (t, shape) = pack-fits window_update_format (window_update_values m) bytes e in
    ap (λ o. and_then o window_update_of)
      (unpack-pack window_update_format (window_update_values m) bytes e)
    ∙ refl

module _ (F : Float32) where
  -- A float that went through an `f` field.
  abbrev pub nearest : F.Float → F.Float
  nearest x = F.of_bits (of_float (F.to_bits x))

  abbrev pub rounded_version : Version F → Version F
  rounded_version m = record m {
    min_radio_freq = nearest m.min_radio_freq;
    max_radio_freq = nearest m.max_radio_freq;
  }

  -- What `pack` accepts of a Version, `unpack` gives back, with the floats rounded.
  pub version_unpack-pack :
      (m : Version F) (bytes : Bytes)
      → version_pack F m ≡ some bytes
      → version_unpack F bytes ≡ some (rounded_version m)
  unfolding version_pack version_unpack version_of fits
  version_unpack-pack m bytes e =
      let (t, shape) = pack-fits version_format (version_values F m) bytes e in
      let radio_module_status_small : of_signed 1 m.radio_module_status < 256 = ground arith in
      ap (λ o. and_then o (version_of F)) (unpack-pack version_format (version_values F m) bytes e)
      ∙ ap (λ z. some (record (rounded_version m) { radio_module_status = z }))
          (signed_byte m.radio_module_status radio_module_status_small)

  abbrev pub rounded_host_desired_state : HostDesiredState F → HostDesiredState F
  rounded_host_desired_state m = record m {
    freq_tx = nearest m.freq_tx;
    freq_rx = nearest m.freq_rx;
  }

  -- What `pack` accepts of a HostDesiredState, `unpack` gives back, with the floats rounded.
  pub host_desired_state_unpack-pack :
      (m : HostDesiredState F) (bytes : Bytes)
      → host_desired_state_pack F m ≡ some bytes
      → host_desired_state_unpack F bytes ≡ some (rounded_host_desired_state m)
  unfolding host_desired_state_pack host_desired_state_unpack host_desired_state_of fits
  host_desired_state_unpack-pack m bytes e =
      let (t, shape) =
        pack-fits host_desired_state_format (host_desired_state_values F m) bytes e in
      let memory_id_small : of_signed 4 m.memory_id < 4294967296 = ground arith in
      ap (λ o. and_then o (host_desired_state_of F))
        (unpack-pack host_desired_state_format (host_desired_state_values F m) bytes e)
      ∙ ap (λ z. some (record (rounded_host_desired_state m) { memory_id = z }))
          (signed_word m.memory_id memory_id_small)

  abbrev pub rounded_device_state : DeviceState F → DeviceState F
  rounded_device_state m = record m { freq_tx = nearest m.freq_tx; freq_rx = nearest m.freq_rx }

  -- What `pack` accepts of a DeviceState, `unpack` gives back, with the floats rounded.
  pub device_state_unpack-pack :
      (m : DeviceState F) (bytes : Bytes)
      → device_state_pack F m ≡ some bytes
      → device_state_unpack F bytes ≡ some (rounded_device_state m)
  unfolding device_state_pack device_state_unpack device_state_of fits
  device_state_unpack-pack m bytes e =
      let (t, shape) = pack-fits device_state_format (device_state_values F m) bytes e in
      let memory_id_small : of_signed 4 m.memory_id < 4294967296 = ground arith in
      let radio_module_status_small : of_signed 1 m.radio_module_status < 256 = ground arith in
      ap (λ o. and_then o (device_state_of F))
        (unpack-pack device_state_format (device_state_values F m) bytes e)
      ∙ ap
          (λ z. some (record (rounded_device_state m) {
            memory_id = z;
            radio_module_status = to_signed 1 (of_signed 1 m.radio_module_status);
          }))
          (signed_word m.memory_id memory_id_small)
      ∙ ap (λ z. some (record (rounded_device_state m) { radio_module_status = z }))
          (signed_byte m.radio_module_status radio_module_status_small)

  abbrev pub rounded_hello : Hello F → Hello F
  rounded_hello m = record {
    version = rounded_version m.version;
    device_state = rounded_device_state m.device_state;
  }

  -- What `pack` accepts of a HELLO, `unpack` gives back: each integer field of the version and the device
  -- state, signed ones included, as it was, and each float as it comes out of its 32 bits, however that
  -- rounds it.
  pub hello_unpack-pack :
      (m : Hello F) (bytes : Bytes)
      → hello_pack F m ≡ some bytes
      → hello_unpack F bytes ≡ some (rounded_hello m)
  unfolding hello_pack hello_unpack version_pack device_state_pack
  hello_unpack-pack m bytes e =
      let (head, packed, rest) = and_then-some (version_pack F m.version) _ bytes e in
      let (tail, packed', shape) =
        and_then-some (device_state_pack F m.device_state) _ bytes rest in
      let s = sym (some_inj.0 shape) in
      let n = length-pack version_format (version_values F m.version) head packed in
      let n' =
        length-pack device_state_format (device_state_values F m.device_state) tail packed' in
      let whole : (length bytes == 43) ≡ true =
        (==_iff (length bytes) 43).1
          (ap length s ∙ length-append head tail ∙ omega (arith, n, n')) in
      let read : Option (Version F) → Option (DeviceState F) → Option (Hello F) = λ v d.
        and_then v (λ version.
          and_then d (λ state. some (record { version = version; device_state = state }))) in
      ap
        (λ t.
          if t
          then read (version_unpack F (take 17 bytes)) (device_state_unpack F (drop 17 bytes))
          else none)
        whole
      ∙ ap (λ l. read (version_unpack F (take 17 l)) (device_state_unpack F (drop 17 l))) s
      ∙ ap (λ l. read (version_unpack F l) (device_state_unpack F (drop 17 (head ++ tail))))
          (take-append 17 head tail n)
      ∙ ap (λ l. read (version_unpack F head) (device_state_unpack F l))
          (drop-append 17 head tail n)
      ∙ ap (λ v. read v (device_state_unpack F tail)) (version_unpack-pack m.version head packed)
      ∙ ap (λ d. read (some (rounded_version m.version)) d)
          (device_state_unpack-pack m.device_state tail packed')
