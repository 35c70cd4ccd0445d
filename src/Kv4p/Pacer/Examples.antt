-- ===== src/Kv4p/Pacer/Examples.antt =====
-- The theorems about the pacer, the encoder and the structs of radio_server/backends/kv4p at concrete inputs.
use radio_server.Base.{
  ℕ, ◌+◌, ◌*◌, ◌/◌, List, ◌≡◌, refl, [], ◌∷◌, ◌++◌, some, length, map, replicate, arith,
  length-replicate,
}
use radio_server.Base.Int.{pos, negsuc}
use radio_server.Base.Struct.{Bytes, pack, fits, le, fields}
use radio_server.Kv4p.Encoder.{Samples, push}
use radio_server.Kv4p.Encoder.Blocks.{IsCut, push-IsCut}
use radio_server.Kv4p.Pacer.{TxPacer, delivered, timed_out, closed, new, flush_tail}
use radio_server.Kv4p.Pacer.Cadence.{IsSteady, Event, arrives, slot, run, slots, run_cadence}
use radio_server.Kv4p.Pacer.Tail.{Ends, flush_tail-Ends}
use radio_server.Kv4p.Structs.{
  Float32, Hello, of_signed, hello_pack, hello_unpack, version_pack, device_state_pack,
}
use radio_server.Kv4p.Structs.RoundTrip.{rounded_hello, hello_unpack-pack}

abbrev doubled : ℕ → ℕ
doubled n = n * 2

-- A remainder of the lead-in, and a transport that times out and then closes.
abbrev lead_in : Samples
lead_in = replicate 960 0

abbrev keyed : TxPacer
keyed = new lead_in (timed_out ∷ delivered ∷ closed ∷ [])

abbrev arrivals : List Event
arrivals = arrives (replicate 960 7) ∷ slot ∷ arrives (replicate 40000 8) ∷ slot ∷ slot ∷ []

run_cadence_example :
    (length (run doubled keyed arrivals).handed ≡ slots arrivals + length keyed.handed)
    × IsSteady (run doubled keyed arrivals)
run_cadence_example =
    run_cadence doubled arrivals keyed
      (record { buffered = omega arith; held = omega (arith, length-replicate {A = ℕ} 960 0) })

push-IsCut_example : IsCut (lead_in ++ map doubled (1 ∷ 2 ∷ [])) (push doubled (1 ∷ 2 ∷ []) lead_in)
push-IsCut_example = push-IsCut doubled (1 ∷ 2 ∷ []) lead_in

-- A key that ends with three samples in the buffer and one in the encoder.
abbrev ending : TxPacer
ending = record (new (9 ∷ []) []) { buf = 1 ∷ 2 ∷ 3 ∷ [] }

flush_tail-Ends_example : Ends ending (flush_tail doubled ending) (9 ∷ 2 ∷ 4 ∷ 6 ∷ [])
flush_tail-Ends_example = flush_tail-Ends doubled ending refl (omega arith)

-- A toy float: halves, of which the field keeps the whole part.
abbrev halves : Float32
halves = record { Float = ℕ; to_bits = λ x. some (x / 2); of_bits = λ b. b * 2 }

abbrev hello : Hello halves
hello = record {
  version = record {
    ver = 3;
    radio_module_status = negsuc 99;
    window_size = 2048;
    rf_module_type = 1;
    min_radio_freq = 269;
    max_radio_freq = 348;
    features = 5;
  };
  device_state = record {
    applied_sequence = 7;
    memory_id = negsuc 0;
    flags = 0x0102;
    bw = 1;
    freq_tx = 293;
    freq_rx = 293;
    ctcss_tx = 0;
    squelch = 4;
    ctcss_rx = 12;
    radio_module_status = pos 102;
    mode = 2;
    last_error = 0;
    latest_rssi = 200;
  };
}

abbrev hello_bytes : Bytes
hello_bytes =
    3 ∷ 0 ∷ 0x9C ∷ 0 ∷ 8 ∷ 0 ∷ 0 ∷ 1 ∷ 134 ∷ 0 ∷ 0 ∷ 0 ∷ 174 ∷ 0 ∷ 0 ∷ 0 ∷ 5 ∷ 7 ∷ 0 ∷ 0 ∷ 0 ∷ 0xFF
    ∷ 0xFF ∷ 0xFF ∷ 0xFF ∷ 2 ∷ 1 ∷ 1 ∷ 146 ∷ 0 ∷ 0 ∷ 0 ∷ 146 ∷ 0 ∷ 0 ∷ 0 ∷ 0 ∷ 4 ∷ 12 ∷ 102 ∷ 2 ∷ 0
    ∷ 200 ∷ []

hello_packed : hello_pack halves hello ≡ some hello_bytes
unfolding hello_pack version_pack device_state_pack pack fits le of_signed fields
hello_packed = refl

hello_unpack-pack_example : hello_unpack halves hello_bytes ≡ some (rounded_hello halves hello)
hello_unpack-pack_example = hello_unpack-pack halves hello hello_bytes hello_packed
