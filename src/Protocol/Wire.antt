-- ===== src/Protocol/Wire.antt =====
-- pkg/protocol/protocol.go: `Decode` gives back what `Encode` wrote, and refuses what is no packet.
use spatial_server.Base.{
  ℕ, ◌/◌, ◌%◌, ◌<◌, ◌≡◌, refl, ◌≤◌, All, Option-cases, Bool, true, false, Option, none, some, [],
  ◌∷◌, nat_key, length, arith, Bool-cases, inl, inr, ℕ_discrete,
}
use spatial_server.Protocol.{
  Bytes, Gzip, GivesBack, Packet, packet, header_size, protocol_version_v1, put_uint16, put_uint32,
  uint16, uint32, choose_shorter, body, encode, inflated, decode,
}

uint16-put : (n : ℕ) → n < 65536 → uint16 ((n / 256) % 256) (n % 256) ≡ n
unfolding uint16
uint16-put n h = omega arith

uint32-put :
    (n : ℕ)
    → n < 4294967296
    → uint32 ((n / 16777216) % 256) ((n / 65536) % 256) ((n / 256) % 256) (n % 256) ≡ n
unfolding uint32
uint32-put n h = omega arith

-- Whether the data of the packet is compressed.
abbrev pub is_zipped : Gzip → Bytes → Bool → Bool
is_zipped z payload compress = (body z payload compress).1

body_kept :
    (z : Gzip) (payload : Bytes) (compress : Bool)
    → is_zipped z payload compress ≡ false
    → (body z payload compress).0 ≡ payload
unfolding body choose_shorter
body_kept z payload compress h = ground arith

body_back :
    (z : Gzip) (payload : Bytes) (compress : Bool)
    → GivesBack z
    → is_zipped z payload compress ≡ true
    → z.inflate (body z payload compress).0 ≡ some payload
unfolding body choose_shorter
body_back z payload compress back h = elim (Option-cases (z.deflate payload)) [
  | inl failed ↦ ground arith
  | inr (zipped, e) ↦ ground (arith, back payload zipped e)
]

-- A packet that `Encode` wrote for an identifier of 16 bits and a sequence number of 32 bits is read
-- back by `Decode` with the payload it was given, whether or not the payload was compressed, if gzip
-- gives back what it wrote.
pub decode-encode :
    (z : Gzip) (id : ℕ) (payload : Bytes) (compress : Bool) (seq : ℕ)
    → GivesBack z
    → id < 65536
    → seq < 4294967296
    → decode z (encode z id payload compress seq)
      ≡ packet (record {
        version = protocol_version_v1;
        id = id;
        payload = payload;
        compressed = is_zipped z payload compress;
        seq = seq;
      })
unfolding decode encode put_uint16 put_uint32 inflated ℕ_discrete
decode-encode z id payload compress seq back small_id small_seq =
    elim (Bool-cases (is_zipped z payload compress)) [
      | inl zipped ↦
          rw
            (
              zipped,
              uint16-put id small_id,
              uint32-put seq small_seq,
              body_back z payload compress back zipped,
            )
            refl
      | inr plain ↦
          rw
            (
              plain,
              uint16-put id small_id,
              uint32-put seq small_seq,
              body_kept z payload compress plain,
            )
            refl
    ]

inflated_fields :
    (o : Option Bytes) (version id seq : ℕ) (p : Packet)
    → inflated version id seq o ≡ packet p
    → (p.version ≡ version) × (p.id ≡ id) × (p.seq ≡ seq)
unfolding inflated
inflated_fields none version id seq p e = ground arith
inflated_fields (some payload) version id seq p e = ground arith

read_fields :
    (z : Gzip) (version i j flags a b c d : ℕ) (rest : Bytes) (p : Packet)
    → decode z (version ∷ i ∷ j ∷ flags ∷ a ∷ b ∷ c ∷ d ∷ rest) ≡ packet p
    → (p.version ≡ protocol_version_v1) × (p.id ≡ uint16 i j) × (p.seq ≡ uint32 a b c d)
unfolding decode
read_fields z version i j flags a b c d rest p e =
    ground (arith, inflated_fields (z.inflate rest) version (uint16 i j) (uint32 a b c d) p)

-- What `Decode` reads as a packet has a whole header of the version that `Encode` writes, and its
-- identifier and sequence number fit their 16 and 32 bits, for any bytes that a client may send.
pub decode_bounds :
    (z : Gzip) (bytes : Bytes) (p : Packet)
    → All (λ b. b < 256) bytes
    → decode z bytes ≡ packet p
    → (header_size ≤ length bytes)
      × (p.version ≡ protocol_version_v1)
      × (p.id < 65536)
      × (p.seq < 4294967296)
unfolding decode uint16 uint32
decode_bounds z [] p small e = cc
decode_bounds z (v ∷ []) p small e = cc
decode_bounds z (v ∷ i ∷ []) p small e = cc
decode_bounds z (v ∷ i ∷ j ∷ []) p small e = cc
decode_bounds z (v ∷ i ∷ j ∷ f ∷ []) p small e = cc
decode_bounds z (v ∷ i ∷ j ∷ f ∷ a ∷ []) p small e = cc
decode_bounds z (v ∷ i ∷ j ∷ f ∷ a ∷ b ∷ []) p small e = cc
decode_bounds z (v ∷ i ∷ j ∷ f ∷ a ∷ b ∷ c ∷ []) p small e = cc
decode_bounds z (v ∷ i ∷ j ∷ f ∷ a ∷ b ∷ c ∷ d ∷ rest) p
      (v8, (i8, (j8, (f8, (a8, (b8, (c8, (d8, r8)))))))) e =
    let (version, id, seq) = read_fields z v i j f a b c d rest p e in
    (omega arith, version, omega arith, omega arith)
