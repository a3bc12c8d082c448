-- ===== src/Protocol/Tests.antt =====
-- pkg/protocol/protocol.go: packets on concrete calls, with a gzip that packs leading sevens.
use spatial_server.Base.{
  ℕ, zero, suc, ◌<◌, ◌≤◌, ◌≡◌, refl, sym, ap, ◌∙◌, true, false, Option, none, some, some-injective,
  [], ◌∷◌, if◌then◌else◌, ◌==◌, nat_key, arith, length, ℕ_discrete,
}
use spatial_server.Protocol.{
  Bytes, Gzip, GivesBack, Packet, packet, encode, decode, protocol_version_v1, header_size, body,
  uint16, uint32,
}
use spatial_server.Protocol.Wire.{is_zipped, decode-encode, decode_bounds}

unpack : ℕ → Bytes → Bytes
unpack zero rest = rest
unpack (suc n) rest = 7 ∷ unpack n rest

bump : Bytes → Bytes
bump [] = []
bump (n ∷ rest) = suc n ∷ rest

pack : Bytes → Bytes
unfolding bump
pack [] = 0 ∷ []
pack (b ∷ bytes) = let packed = pack bytes in if b == 7 then bump packed else 0 ∷ b ∷ bytes

inflate : Bytes → Option Bytes
unfolding unpack
inflate [] = none
inflate (n ∷ rest) = some (unpack n rest)

inflate-bump : (l bytes : Bytes) → inflate l ≡ some bytes → inflate (bump l) ≡ some (7 ∷ bytes)
unfolding inflate bump unpack
inflate-bump [] bytes e = cc
inflate-bump (n ∷ rest) bytes e = ap (λ l. some (7 ∷ l)) (some-injective _ _ e)

inflate-pack : (bytes : Bytes) → inflate (pack bytes) ≡ some bytes
unfolding inflate pack unpack
inflate-pack [] = refl
inflate-pack (b ∷ bytes) = ground (arith, inflate-bump (pack bytes) bytes (inflate-pack bytes))

abbrev sevens : Gzip
sevens = record { deflate = λ bytes. some (pack bytes); inflate = inflate }

sevens-GivesBack : GivesBack sevens
sevens-GivesBack plain zipped e = ap inflate (sym (some-injective _ _ e)) ∙ inflate-pack plain

abbrev long : Bytes
long = unpack 200 (1 ∷ [])

long-is_zipped : is_zipped sevens long true ≡ true
unfolding body unpack pack bump ℕ_discrete
long-is_zipped = refl

decode-encode_example :
    decode sevens (encode sevens 6 long true 77)
    ≡ packet (record {
      version = 1;
      id = 6;
      payload = long;
      compressed = is_zipped sevens long true;
      seq = 77;
    })
decode-encode_example =
    decode-encode sevens 6 long true 77 sevens-GivesBack (omega arith) (omega arith)

abbrev ping : Bytes
ping = 1 ∷ 0 ∷ 255 ∷ 0 ∷ 0 ∷ 0 ∷ 1 ∷ 2 ∷ 42 ∷ []

abbrev read : Packet
read = record { version = 1; id = 255; payload = 42 ∷ []; compressed = false; seq = 258 }

decode_bounds_example :
    (header_size ≤ length ping)
    × (read.version ≡ protocol_version_v1)
    × (read.id < 65536)
    × (read.seq < 4294967296)
unfolding decode uint16 uint32 ℕ_discrete
decode_bounds_example =
    decode_bounds sevens ping read
      (
        omega arith,
        (
          omega arith,
          (
            omega arith,
            (
              omega arith,
              (omega arith, (omega arith, (omega arith, (omega arith, (omega arith, tt))))),
            ),
          ),
        ),
      )
      refl
