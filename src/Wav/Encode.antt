-- ===== src/Wav/Encode.antt =====
-- WAV files as a writer lays them out: other chunks, the format, and the data.
use tcpremote_device_control.Base.{
  ℕ, ◌+◌, ◌/◌, ◌%◌, ◌^◌, ◌<◌, ◌≡◌, false, ◌==◌, if◌then◌else◌, List, [], ◌∷◌, ◌++◌, length, Bytes,
  codes, equal_bytes,
}
use tcpremote_device_control.Wav.{WavInfo}

-- Little-endian numbers in front of the bytes that follow.
abbrev pub put_u16 : ℕ → Bytes → Bytes
put_u16 n rest = (n % 256) ∷ (n / 256 % 256) ∷ rest

abbrev pub put_u32 : ℕ → Bytes → Bytes
put_u32 n rest = (n % 256) ∷ (n / 256 % 256) ∷ (n / 65536 % 256) ∷ (n / 16777216 % 256) ∷ rest

-- A chunk that is neither the format nor the data.
pub record Chunk : Type 0 where
  pub id0 : ℕ
  pub id1 : ℕ
  pub id2 : ℕ
  pub id3 : ℕ
  pub payload : Bytes

abbrev pub id_of : Chunk → Bytes
id_of c = c.id0 ∷ c.id1 ∷ c.id2 ∷ c.id3 ∷ []

-- A payload of odd size is followed by one more byte.
abbrev pub padding : ℕ → Bytes
padding size = if size % 2 == 1 then 0 ∷ [] else []

abbrev pub put_chunk : Chunk → Bytes → Bytes
put_chunk c rest =
    c.id0
    ∷ c.id1
    ∷ c.id2
    ∷ c.id3
    ∷ put_u32 (length c.payload) (c.payload ++ (padding (length c.payload) ++ rest))

abbrev pub put_chunks : List Chunk → Bytes → Bytes
put_chunks [] rest = rest
put_chunks (c ∷ cs) rest = put_chunk c (put_chunks cs rest)

abbrev pub IsForeign : Chunk → Type 0
IsForeign c =
    (equal_bytes (id_of c) (codes "fmt ") ≡ false)
    × (equal_bytes (id_of c) (codes "data") ≡ false)
    × (length c.payload < 2 ^ 32)

abbrev pub chunk_size : Chunk → ℕ
chunk_size c = 8 + (length c.payload + length (padding (length c.payload)))

abbrev pub chunks_size : List Chunk → ℕ
chunks_size [] = 0
chunks_size (c ∷ cs) = chunk_size c + chunks_size cs

-- The bytes per second stand between the rate and the alignment; the reader passes over them.
abbrev pub put_format : WavInfo → ℕ → Bytes → Bytes
put_format info byte_rate rest =
    codes "fmt "
    ++ put_u32 16 (
        put_u16 info.audio_format (
          put_u16 info.channels (
            put_u32 info.sample_rate
              (put_u32 byte_rate (put_u16 info.block_align (put_u16 info.bits_per_sample rest))))))

abbrev pub put_data : ℕ → Bytes → Bytes
put_data size samples = codes "data" ++ put_u32 size samples

abbrev pub encode : WavInfo → ℕ → ℕ → List Chunk → Bytes → Bytes
encode info riff_size byte_rate chunks samples =
    codes "RIFF"
    ++ put_u32 riff_size (
        codes "WAVE"
        ++ put_chunks chunks (put_format info byte_rate (put_data info.data_size samples)))
