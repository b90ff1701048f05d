-- ===== src/Lib.antt =====
-- Verification of timbre-tsf, a columnar file format for time series.
--
-- A writer turns the columns of a tablet into pages: an encoder (src/encoding) turns each value
-- into bytes, the pages are split into mini-blocks (src/file/miniblock.rs), compressed and written.
-- A reader skips chunks by their time range and statistics (src/query/filter), and decodes the
-- others with the decoder of the same encoding. This library models the encoders and decoders of
-- integers and strings and the plain ones, the bytes of types, mini-blocks, the dictionary of a file,
-- statistics, and the filters of a query that skip chunks by them.
--
-- The files, and what they model:
-- - Words, Words/Zigzag: machine integers as bit patterns, and the zigzag map of
--   src/encoding/zigzag.rs and src/encoding/simple8b.rs.
-- - Exec: the error type of src/error.rs, and methods on `&mut self` that return a `Result`, as
--   functions from a state to a result and a state. The state of an encoder's method is the encoder
--   and the output vector; that of a decoder's is the decoder and the position in the input.
-- - Bytes: the byteorder crate as the interface LittleEndian, with what its documentation says of
--   it as laws, and reading at a position; Bytes/Reader: reading from a `std::io::Read`; Bytes/Slice
--   and Bytes/Strings: slices and the strings that decoders take from their input; Bytes/Same and
--   Bytes/Utf8: `==` of strings and the test of `String::from_utf8`.
-- - Varint: the loops for variable-length integers in src/encoding/zigzag.rs and
--   src/file/dictionary.rs.
-- - Common/Types: src/common/types.rs. Common/Statistic: src/common/statistic.rs, with the addition
--   of f64 and the conversions to it as a parameter on which no law is laid.
-- - Encoding: the methods of the traits Encoder and Decoder in src/encoding/mod.rs, as one function
--   on Value or Kind each. Encoding/Rle, Encoding/Zigzag, Encoding/Simple8b and
--   Encoding/DeltaOfDelta: the files of these names in src/encoding, new_encoder and new_decoder
--   for `new`, encode and read for the methods of the traits, flush, has_remaining and the private
--   functions under their own names.
-- - Encoding/Plain, Encoding/Dictionary and Encoding/DictionaryRle: src/encoding/plain.rs,
--   dictionary.rs and dictionary_rle.rs beside it, in the same way. Encoding/Places: what the last
--   two share, the place of a key in a list without repetition, and hash maps as association lists.
-- - Encoding/BitStream: the bit writer and the bit reader of src/encoding/gorilla.rs, its methods
--   write_bits, write_bit, flush_bits, refill_buffer, read_bits and read_bit, and the sequence of
--   bits that they stand for. Encoding/Gorilla: the rest of that file, encode and read for the
--   methods of the traits, `FloatBits` as the width of its type; Encoding/Gorilla/Code is the bit
--   sequence that is meant.
-- - Encoding/Chimp128: src/encoding/chimp128.rs, over the same bit writer and reader, its own
--   write_bits in Encoding/Chimp128/Encoder.
-- - Query/TimeFilter, Query/ValueFilter and Query/Predicate: time_filter.rs, value_filter.rs and
--   predicate.rs in src/query/filter; Words/Float: comparison of floats by their bits.
-- - File/MiniBlock: src/file/miniblock.rs.
-- - File/GlobalDictionary: src/file/dictionary.rs, its hash map an association list.
-- - File/ByteStream: src/file/byte_stream.rs.
-- - Prelude: the names and the lemmas on lists and tests that all share.
--
-- Integers are bit patterns and arithmetic wraps, as in the release profile; a float is its bits,
-- and a string its bytes. The loop of Simple8b's finish runs on fuel, as much as there are pending
-- values, since each round takes one at least. The simplification of a predicate runs on as much
-- fuel as it has nodes, the loops over the ids of the dictionary encoding on as much as there are
-- ids, or bytes. The loop that fetches bits for a read runs on fuel 9, since each round but the last
-- fetches a byte at least into a word of 64 bits. The writers of variable-length integers are well-founded recursion on the number,
-- the readers recursion on the bytes left. Lengths of vectors are not bounded by the size of memory.
--
-- Not modelled: the other encodings (sprintz, quantized), the metadata of a
-- file, schemas and tablets, indexes, readers and writers, and the glue to Arrow and to the
-- compression crates.
pub mod Prelude
pub mod Words
pub mod Exec
pub mod Bytes
pub mod Varint
pub mod Common
pub mod Encoding
pub mod Query
pub mod File
