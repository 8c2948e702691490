-- ===== src/Download.antt =====
-- The download path of the server: the reader fetches chunks and their bases, the decoder restores
-- what it can and sends it to the client in batches.
pub mod Reader
pub mod Decoder
pub mod Restored
pub mod Messages
