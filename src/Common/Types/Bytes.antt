-- ===== src/Common/Types/Bytes.antt =====
-- The bytes of types.rs: which values come back from their byte.
use timbre_tsf.Prelude.{ℕ, ◌≡◌, ◌≢◌, ◌↔◌, ◌⊎◌, refl, arith}
use timbre_tsf.Common.Types.{
  TsDataType, data_type_to_u8, data_type_from_u8, TsEncoding, encoding_to_u8, encoding_from_u8,
  CompressionType, compression_to_u8, compression_from_u8,
}

-- Every data type comes back from its byte, and a byte that gives a type other than `Invalid`
-- is that type's byte.
pub data_type_bytes :
    (t : TsDataType) (b : ℕ)
    → (data_type_from_u8 (data_type_to_u8 t) ≡ t)
      × ((data_type_from_u8 b ≡ TsDataType.invalid) ⊎ (data_type_to_u8 (data_type_from_u8 b) ≡ b))
unfolding data_type_to_u8 data_type_from_u8
data_type_bytes t b = (there t, ground arith)
  where
    there : (t : TsDataType) → data_type_from_u8 (data_type_to_u8 t) ≡ t
    there TsDataType.boolean = refl
    there TsDataType.int32 = refl
    there TsDataType.int64 = refl
    there TsDataType.float = refl
    there TsDataType.double = refl
    there TsDataType.text = refl
    there TsDataType.vector = refl
    there TsDataType.unknown = refl
    there TsDataType.timestamp = refl
    there TsDataType.date = refl
    there TsDataType.blob = refl
    there TsDataType.string = refl
    there TsDataType.null = refl
    there TsDataType.invalid = refl

-- Every compression comes back from its byte, and a byte that gives a compression other than
-- `Invalid` is that compression's byte.
pub compression_bytes :
    (c : CompressionType) (b : ℕ)
    → (compression_from_u8 (compression_to_u8 c) ≡ c)
      × ((compression_from_u8 b ≡ CompressionType.invalid)
          ⊎ (compression_to_u8 (compression_from_u8 b) ≡ b))
unfolding compression_to_u8 compression_from_u8
compression_bytes c b = (there c, ground arith)
  where
    there : (c : CompressionType) → compression_from_u8 (compression_to_u8 c) ≡ c
    there CompressionType.uncompressed = refl
    there CompressionType.snappy = refl
    there CompressionType.gzip = refl
    there CompressionType.lzo = refl
    there CompressionType.sdt = refl
    there CompressionType.paa = refl
    there CompressionType.pla = refl
    there CompressionType.lz4 = refl
    there CompressionType.zstd = refl
    there CompressionType.invalid = refl

-- An encoding comes back from its byte exactly when it is neither `Quantized` nor
-- `DictionaryRLE`: the bytes 15 and 16 of these two are read as `Invalid`.
pub encoding_bytes :
    (e : TsEncoding)
    → (encoding_from_u8 (encoding_to_u8 e) ≡ e)
      ↔ ((e ≢ TsEncoding.quantized) × (e ≢ TsEncoding.dictionary_rle))
unfolding encoding_to_u8 encoding_from_u8
encoding_bytes TsEncoding.plain = ground arith
encoding_bytes TsEncoding.dictionary = ground arith
encoding_bytes TsEncoding.rle = ground arith
encoding_bytes TsEncoding.diff = ground arith
encoding_bytes TsEncoding.delta_of_delta = ground arith
encoding_bytes TsEncoding.bitmap = ground arith
encoding_bytes TsEncoding.gorilla_v1 = ground arith
encoding_bytes TsEncoding.regular = ground arith
encoding_bytes TsEncoding.gorilla = ground arith
encoding_bytes TsEncoding.zigzag = ground arith
encoding_bytes TsEncoding.freq = ground arith
encoding_bytes TsEncoding.sprintz = ground arith
encoding_bytes TsEncoding.chimp128 = ground arith
encoding_bytes TsEncoding.simple8b = ground arith
encoding_bytes TsEncoding.quantized = ground arith
encoding_bytes TsEncoding.dictionary_rle = ground arith
encoding_bytes TsEncoding.invalid = ground arith
