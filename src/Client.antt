-- ===== src/Client.antt =====
-- EDRStore/src/client: the threads that cut, encrypt, compress and send a file, and those that
-- restore it. Each child is about the files that it names.
pub mod CompressUtil
pub mod CompPad
pub mod Padding
pub mod TwoPhaseEnc
pub mod CacheMeta
pub mod Eviction
pub mod KeyGen
pub mod SelectComp
pub mod SimilarThd
pub mod Sender
pub mod Retriever
pub mod Restore
pub mod DownloadWriter
