-- ===== src/Common/Types.antt =====
-- common/types.rs: data types, encodings, compressions and values, with their bytes in a file.
pub mod Bytes
mod Tests
use timbre_tsf.Prelude.{ℕ, Bool, Option, none, some, List, ◌==◌, if◌then◌else◌}

-- The derived `==` compares the discriminants, which are the bytes.
pub data TsDataType : Type 0 where
  boolean int32 int64 float double text vector unknown timestamp date blob string null invalid :
      TsDataType

unfoldable pub data_type_to_u8 : TsDataType → ℕ
data_type_to_u8 TsDataType.boolean = 0
data_type_to_u8 TsDataType.int32 = 1
data_type_to_u8 TsDataType.int64 = 2
data_type_to_u8 TsDataType.float = 3
data_type_to_u8 TsDataType.double = 4
data_type_to_u8 TsDataType.text = 5
data_type_to_u8 TsDataType.vector = 6
data_type_to_u8 TsDataType.unknown = 7
data_type_to_u8 TsDataType.timestamp = 8
data_type_to_u8 TsDataType.date = 9
data_type_to_u8 TsDataType.blob = 10
data_type_to_u8 TsDataType.string = 11
data_type_to_u8 TsDataType.null = 254
data_type_to_u8 TsDataType.invalid = 255

unfoldable pub data_type_from_u8 : ℕ → TsDataType
data_type_from_u8 value =
    if value == 0
    then TsDataType.boolean
    else if value == 1
    then TsDataType.int32
    else if value == 2
    then TsDataType.int64
    else if value == 3
    then TsDataType.float
    else if value == 4
    then TsDataType.double
    else if value == 5
    then TsDataType.text
    else if value == 6
    then TsDataType.vector
    else if value == 7
    then TsDataType.unknown
    else if value == 8
    then TsDataType.timestamp
    else if value == 9
    then TsDataType.date
    else if value == 10
    then TsDataType.blob
    else if value == 11
    then TsDataType.string
    else if value == 254
    then TsDataType.null
    else TsDataType.invalid

abbrev pub same_type : TsDataType → TsDataType → Bool
same_type a b = data_type_to_u8 a == data_type_to_u8 b

-- The bytes of a value of fixed size.
unfoldable pub size : TsDataType → Option ℕ
size TsDataType.boolean = some 1
size TsDataType.int32 = some 4
size TsDataType.float = some 4
size TsDataType.date = some 4
size TsDataType.int64 = some 8
size TsDataType.double = some 8
size TsDataType.timestamp = some 8
size _ = none

-- How the values of a column are encoded.
pub data TsEncoding : Type 0 where
  plain dictionary rle diff delta_of_delta bitmap gorilla_v1 regular gorilla zigzag freq sprintz
        chimp128 simple8b quantized dictionary_rle invalid :
      TsEncoding

unfoldable pub encoding_to_u8 : TsEncoding → ℕ
encoding_to_u8 TsEncoding.plain = 0
encoding_to_u8 TsEncoding.dictionary = 1
encoding_to_u8 TsEncoding.rle = 2
encoding_to_u8 TsEncoding.diff = 3
encoding_to_u8 TsEncoding.delta_of_delta = 4
encoding_to_u8 TsEncoding.bitmap = 5
encoding_to_u8 TsEncoding.gorilla_v1 = 6
encoding_to_u8 TsEncoding.regular = 7
encoding_to_u8 TsEncoding.gorilla = 8
encoding_to_u8 TsEncoding.zigzag = 9
encoding_to_u8 TsEncoding.freq = 10
encoding_to_u8 TsEncoding.sprintz = 12
encoding_to_u8 TsEncoding.chimp128 = 13
encoding_to_u8 TsEncoding.simple8b = 14
encoding_to_u8 TsEncoding.quantized = 15
encoding_to_u8 TsEncoding.dictionary_rle = 16
encoding_to_u8 TsEncoding.invalid = 255

unfoldable pub encoding_from_u8 : ℕ → TsEncoding
encoding_from_u8 value =
    if value == 0
    then TsEncoding.plain
    else if value == 1
    then TsEncoding.dictionary
    else if value == 2
    then TsEncoding.rle
    else if value == 3
    then TsEncoding.diff
    else if value == 4
    then TsEncoding.delta_of_delta
    else if value == 5
    then TsEncoding.bitmap
    else if value == 6
    then TsEncoding.gorilla_v1
    else if value == 7
    then TsEncoding.regular
    else if value == 8
    then TsEncoding.gorilla
    else if value == 9
    then TsEncoding.zigzag
    else if value == 10
    then TsEncoding.freq
    else if value == 12
    then TsEncoding.sprintz
    else if value == 13
    then TsEncoding.chimp128
    else if value == 14
    then TsEncoding.simple8b
    else TsEncoding.invalid

unfoldable pub encoding_recommended_for : TsDataType → TsEncoding
encoding_recommended_for TsDataType.boolean = TsEncoding.rle
encoding_recommended_for TsDataType.int32 = TsEncoding.simple8b
encoding_recommended_for TsDataType.date = TsEncoding.simple8b
encoding_recommended_for TsDataType.int64 = TsEncoding.simple8b
encoding_recommended_for TsDataType.timestamp = TsEncoding.delta_of_delta
encoding_recommended_for TsDataType.float = TsEncoding.chimp128
encoding_recommended_for TsDataType.double = TsEncoding.chimp128
encoding_recommended_for TsDataType.text = TsEncoding.dictionary
encoding_recommended_for TsDataType.string = TsEncoding.dictionary
encoding_recommended_for _ = TsEncoding.plain

-- How a page is compressed.
pub data CompressionType : Type 0 where
  uncompressed snappy gzip lzo sdt paa pla lz4 zstd invalid : CompressionType

unfoldable pub compression_to_u8 : CompressionType → ℕ
compression_to_u8 CompressionType.uncompressed = 0
compression_to_u8 CompressionType.snappy = 1
compression_to_u8 CompressionType.gzip = 2
compression_to_u8 CompressionType.lzo = 3
compression_to_u8 CompressionType.sdt = 4
compression_to_u8 CompressionType.paa = 5
compression_to_u8 CompressionType.pla = 6
compression_to_u8 CompressionType.lz4 = 7
compression_to_u8 CompressionType.zstd = 8
compression_to_u8 CompressionType.invalid = 255

unfoldable pub compression_from_u8 : ℕ → CompressionType
compression_from_u8 value =
    if value == 0
    then CompressionType.uncompressed
    else if value == 1
    then CompressionType.snappy
    else if value == 2
    then CompressionType.gzip
    else if value == 3
    then CompressionType.lzo
    else if value == 4
    then CompressionType.sdt
    else if value == 5
    then CompressionType.paa
    else if value == 6
    then CompressionType.pla
    else if value == 7
    then CompressionType.lz4
    else if value == 8
    then CompressionType.zstd
    else CompressionType.invalid

unfoldable pub compression_recommended_for : TsDataType → CompressionType
compression_recommended_for data_type = CompressionType.zstd

-- A float is its bits; a string and a blob are bytes.
pub data TsValue : Type 0 where
  boolean : Bool → TsValue
  int32 int64 float double : ℕ → TsValue
  text string blob : List ℕ → TsValue
  null : TsValue

unfoldable pub data_type : TsValue → TsDataType
data_type (TsValue.boolean b) = TsDataType.boolean
data_type (TsValue.int32 v) = TsDataType.int32
data_type (TsValue.int64 v) = TsDataType.int64
data_type (TsValue.float v) = TsDataType.float
data_type (TsValue.double v) = TsDataType.double
data_type (TsValue.text s) = TsDataType.text
data_type (TsValue.string s) = TsDataType.string
data_type (TsValue.blob b) = TsDataType.blob
data_type TsValue.null = TsDataType.null
