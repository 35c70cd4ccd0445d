-- ===== src/Kv4p/Kiss.antt =====
-- The KISS framing of radio_server/backends/kv4p/frames.py. Bytes are numbers.
pub mod Stream
pub mod RoundTrip
pub mod Oversize
use radio_server.Base.{
  ℕ, ◌+◌, ◌%◌, Bool, true, false, ◌&&◌, ◌||◌, not, List, [], ◌∷◌, ◌++◌, Option, none, some, length,
  leb, ◌==◌, if◌then◌else◌,
}

abbrev pub Bytes : Type 0
Bytes = List ℕ

-- KISS_FEND, KISS_FESC, KISS_TFEND, KISS_TFESC
abbrev pub fend : ℕ
fend = 0xC0

abbrev pub fesc : ℕ
fesc = 0xDB

abbrev pub tfend : ℕ
tfend = 0xDC

abbrev pub tfesc : ℕ
tfesc = 0xDD

abbrev pub proto_mtu : ℕ
proto_mtu = 2048

abbrev pub vendor_header_len : ℕ
vendor_header_len = 6

abbrev pub max_frame_size : ℕ
max_frame_size = proto_mtu + 1 + vendor_header_len

-- `_escape`
unfoldable pub escape : Bytes → Bytes
escape [] = []
escape (b ∷ bs) =
    let rest = escape bs in
    if b == fend then fesc ∷ tfend ∷ rest else if b == fesc then fesc ∷ tfesc ∷ rest else b ∷ rest

unfoldable pub build_kiss_frame : ℕ → Bytes → Bytes
build_kiss_frame command_byte payload = fend ∷ command_byte % 256 ∷ (escape payload ++ (fend ∷ []))

pub record KissDecoder : Type 0 where
  pub buf : Bytes
  pub escaped : Bool
  pub drop : Bool
  pub in_frame : Bool

abbrev pub new : KissDecoder
new = record { buf = []; escaped = false; drop = false; in_frame = false }

abbrev pub is_empty : Bytes → Bool
is_empty [] = true
is_empty (b ∷ bs) = false

-- `_append`: what would be too long is dropped, not truncated.
unfoldable pub append : ℕ → KissDecoder → KissDecoder
append b d =
    if leb max_frame_size (length d.buf)
    then record d { drop = true }
    else record d { buf = d.buf ++ (b ∷ []) }

-- What a delimiter closes.
unfoldable pub pending : KissDecoder → Option Bytes
pending d = if not (is_empty d.buf) && not d.drop then some d.buf else none

-- The byte behind an escape.
unfoldable pub unescape : ℕ → KissDecoder → KissDecoder
unescape b d =
    if b == tfend
    then append fend d
    else if b == tfesc
    then append fesc d
    else record d { drop = true }

-- `_process`
unfoldable pub process : ℕ → KissDecoder → Option Bytes × KissDecoder
process b d =
    if b == fend
    then (pending d, record { buf = []; escaped = false; drop = false; in_frame = true })
    else if not d.in_frame || d.drop
    then (none, d)
    else if d.escaped
    then (none, unescape b (record d { escaped = false }))
    else if b == fesc
    then (none, record d { escaped = true })
    else (none, append b d)

abbrev pub emit : Option Bytes → List Bytes → List Bytes
emit none fs = fs
emit (some f) fs = f ∷ fs

unfoldable pub feed : KissDecoder → Bytes → List Bytes × KissDecoder
feed d [] = ([], d)
feed d (b ∷ bs) = let (f, d') = process b d in let (fs, d'') = feed d' bs in (emit f fs, d'')

unfoldable pub reset : KissDecoder → KissDecoder
reset d = new
