-- ===== src/Protocol.antt =====
-- pkg/protocol/protocol.go: the packets between the clients and the servers.
pub mod Wire
mod Tests
use spatial_server.Base.{
  ◌≡◌, ℕ, ◌+◌, ◌*◌, ◌/◌, ◌%◌, Bool, true, false, ◌&&◌, Option, none, some, List, [], ◌∷◌, ◌++◌,
  if◌then◌else◌, ◌==◌, nat_key, ltb, length, not,
}

-- A byte is a number below 256.
abbrev pub Bytes : Type 0
Bytes = List ℕ

-- compress/gzip, which the source calls: `deflate` is none if no writer can be made, `inflate` is
-- none if the reader or the reading fails.
pub record Gzip : Type 0 where
  pub deflate : Bytes → Option Bytes
  pub inflate : Bytes → Option Bytes

-- What the package documents: reading gives back what was written.
abbrev pub GivesBack : Gzip → Type 0
GivesBack z = (plain zipped : Bytes) → z.deflate plain ≡ some zipped → z.inflate zipped ≡ some plain

pub data DecodeError : Type 0 where
  too_short unsupported_version bad_gzip : DecodeError

pub record Packet : Type 0 where
  pub version : ℕ
  pub id : ℕ
  pub payload : Bytes
  pub compressed : Bool
  pub seq : ℕ

pub data Decoded : Type 0 where
  packet : Packet → Decoded
  refused : DecodeError → Decoded

abbrev pub header_size : ℕ
header_size = 8

abbrev pub protocol_version_v1 : ℕ
protocol_version_v1 = 1

abbrev pub compress_min_size : ℕ
compress_min_size = 128

-- `binary.BigEndian`, 2 and 4 bytes wide
unfoldable pub put_uint16 : ℕ → Bytes
put_uint16 n = (n / 256) % 256 ∷ n % 256 ∷ []

unfoldable pub put_uint32 : ℕ → Bytes
put_uint32 n = (n / 16777216) % 256 ∷ (n / 65536) % 256 ∷ (n / 256) % 256 ∷ n % 256 ∷ []

unfoldable pub uint16 : ℕ → ℕ → ℕ
uint16 a b = a * 256 + b

unfoldable pub uint32 : ℕ → ℕ → ℕ → ℕ → ℕ
uint32 a b c d = a * 16777216 + b * 65536 + c * 256 + d

-- The data of a packet, and whether it is compressed.
choose_shorter : Bytes → Option Bytes → Bytes × Bool
choose_shorter payload none = (payload, false)
choose_shorter payload (some zipped) =
    if ltb (length zipped) (length payload) then (zipped, true) else (payload, false)

unfoldable pub body : Gzip → Bytes → Bool → Bytes × Bool
unfolding choose_shorter
body z payload compress =
    if compress && ltb compress_min_size (length payload)
    then choose_shorter payload (z.deflate payload)
    else (payload, false)

unfoldable pub encode : Gzip → ℕ → Bytes → Bool → ℕ → Bytes
unfolding body put_uint16 put_uint32
encode z id payload compress seq =
    let r = body z payload compress in
    protocol_version_v1 ∷ put_uint16 id ++ (if r.1 then 1 else 0) ∷ put_uint32 seq ++ r.0

inflated : ℕ → ℕ → ℕ → Option Bytes → Decoded
inflated version id seq none = refused bad_gzip
inflated version id seq (some payload) =
    packet (record { version = version; id = id; payload = payload; compressed = true; seq = seq })

-- `Decode`; the lowest bit of the flags says whether the data is compressed.
unfoldable pub decode : Gzip → Bytes → Decoded
unfolding inflated uint16 uint32
decode z (version ∷ i ∷ j ∷ flags ∷ a ∷ b ∷ c ∷ d ∷ bytes) =
    if not (version == protocol_version_v1)
    then refused unsupported_version
    else if not (flags % 2 == 0)
    then inflated version (uint16 i j) (uint32 a b c d) (z.inflate bytes)
    else packet (record {
      version = version;
      id = uint16 i j;
      payload = bytes;
      compressed = false;
      seq = uint32 a b c d;
    })
decode z _ = refused too_short
