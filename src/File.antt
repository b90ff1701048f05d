-- ===== src/File.antt =====
-- file/: the parts of a file.
pub mod MiniBlock
pub mod GlobalDictionary
pub mod ByteStream
