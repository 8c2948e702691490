-- ===== src/Layout.antt =====
-- EDRStore/include/const_var.h and EDRStore/include/data_structure.h: the constants, the chunk
-- types and states, and the records that the threads hand to one another.
-- A `uint8_t[32]` fingerprint or key, and a container id, is a byte string; an array of features
-- is the list of its elements; a data buffer is the list of the bytes that its size counts.
use edrstore.Prelude.{ℕ, List, Bytes, ◌+◌, ◌*◌, ◌^◌}

abbrev pub max_chunk_size : ℕ
max_chunk_size = 2 ^ 14

abbrev pub crypto_block_size : ℕ
crypto_block_size = 16

abbrev pub enc_max_chunk_size : ℕ
enc_max_chunk_size = max_chunk_size + crypto_block_size + 4

abbrev pub super_feature_per_chunk : ℕ
super_feature_per_chunk = 3

abbrev pub feature_per_super_feature : ℕ
feature_per_super_feature = 4

abbrev pub feature_per_chunk : ℕ
feature_per_chunk = super_feature_per_chunk * feature_per_super_feature

abbrev pub chunk_hash_size : ℕ
chunk_hash_size = 32

abbrev pub max_container_size : ℕ
max_container_size = 2 ^ 22

abbrev pub container_id_length : ℕ
container_id_length = 8

-- `enum CHUNK_STATUS_SET`
pub data ChunkStatus : Type 0 where
  unique_chunk unique_chunk_after_cache duplicate_chunk similar_chunk : ChunkStatus
  non_similar_chunk comp_delta_chunk uncomp_delta_chunk comp_base_chunk : ChunkStatus
  uncomp_base_chunk cache_insert_chunk cache_delta_chunk cache_evict_chunk : ChunkStatus
  multi_level_delta_chunk chunk_pair single_chunk : ChunkStatus

-- `enum DATA_TYPE_SET`
pub data DataType : Type 0 where
  normal_chunk compressed_normal_chunk recipe_chunk full_edr_cache_chunk : DataType
  full_edr_uncompress_chunk cache_restore_delta cache_restore_base : DataType
  comp_normal_chunk uncomp_normal_chunk : DataType

-- The value of the enumeration, as a header's `uint8_t` carries it, and the way back.
unfoldable pub type_code : DataType → ℕ
type_code normal_chunk = 0
type_code compressed_normal_chunk = 1
type_code recipe_chunk = 2
type_code full_edr_cache_chunk = 3
type_code full_edr_uncompress_chunk = 4
type_code cache_restore_delta = 5
type_code cache_restore_base = 6
type_code comp_normal_chunk = 7
type_code uncomp_normal_chunk = 8

-- `KeyForChunkHashDB_t`
pub record ChunkAddr : Type 0 where
  pub stat : ChunkStatus
  pub container_id : Bytes
  pub offset : ℕ
  pub len : ℕ
  pub base_fp : Bytes
  pub compressed_fp : Bytes

-- `ChunkInfo_t`
pub record ChunkInfo : Type 0 where
  pub fp : Bytes
  pub features : List ℕ
  pub addr : ChunkAddr
  pub size : ℕ
  pub stat : ChunkStatus

-- `SendChunkHeader_t`; `type` is a `uint8_t`.
pub record SendChunkHeader : Type 0 where
  pub size : ℕ
  pub kind : ℕ
  pub cipher_features : List ℕ
  pub compressed_fp : Bytes

-- `SendChunk_t`
pub record SendChunk : Type 0 where
  pub header : SendChunkHeader
  pub buf : Bytes

-- `WrappedChunk_t`
pub record WrappedChunk : Type 0 where
  pub info : ChunkInfo
  pub buf : Bytes

-- `Container_t`
pub record Container : Type 0 where
  pub id : Bytes
  pub body : Bytes
  pub cur_size : ℕ
