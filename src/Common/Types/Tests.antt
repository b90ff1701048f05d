-- ===== src/Common/Types/Tests.antt =====
-- The bytes of types.rs at concrete values.
use timbre_tsf.Prelude.{◌≡◌, ◌≢◌, ◌↔◌}
use timbre_tsf.Common.Types.{TsEncoding, encoding_to_u8, encoding_from_u8}
use timbre_tsf.Common.Types.Bytes.{encoding_bytes}

encoding_bytes_example :
    (encoding_from_u8 (encoding_to_u8 TsEncoding.quantized) ≡ TsEncoding.quantized) ↔ (
      (TsEncoding.quantized ≢ TsEncoding.quantized)
      × (TsEncoding.quantized ≢ TsEncoding.dictionary_rle))
encoding_bytes_example = encoding_bytes TsEncoding.quantized
