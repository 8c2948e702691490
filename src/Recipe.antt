-- ===== src/Recipe.antt =====
-- The file recipe of an upload, the list of its chunks' fingerprints: `InitUploadBuffer`,
-- `ProcessRecipe` and `ProcessRecipeEnd` (EDRStore/src/server/client_var.cc and data_recv_thd.cc)
-- write it in batches, and the loop of `DataReaderThd::Run` (data_reader_thd.cc) reads it back.
-- The file is its bytes; a write goes to the end, but for the head, which `seekp(0)` puts first.
pub mod RoundTrip
pub mod Reading
use edrstore.Prelude.{
  ℕ, zero, suc, ◌+◌, ◌*◌, ◌/◌, ◌%◌, ◌^◌, List, [], ◌∷◌, ◌++◌, Bytes, if◌then◌else◌, ◌==◌, leb, ltb,
  take, drop, slice, u32, u64, length, Outcome, ok, exit_failure,
}
use edrstore.Layout.{chunk_hash_size}

-- `_recipe_batch` and the file behind `_recipe_write_hdl`.
pub record Recipe : Type 0 where
  pub buf : Bytes
  pub cnt : ℕ
  pub file : Bytes

-- The file begins with room for the head, whose bytes are not set yet.
unfoldable pub init_recipe : Bytes → Recipe
init_recipe v_recipe_end = record { buf = []; cnt = 0; file = v_recipe_end }

-- `ProcessRecipe`. With batches of 0 fingerprints the process ends, by a division by 0.
unfoldable pub process_recipe : ℕ → Recipe → Bytes → Outcome Recipe
process_recipe send_recipe_batch_size r fp =
    let buf = take (r.cnt * chunk_hash_size) r.buf ++ take chunk_hash_size fp in
    let cnt = u32 (r.cnt + 1) in
    if send_recipe_batch_size == 0
    then exit_failure
    else ok (
        if cnt % send_recipe_batch_size == 0
        then record { buf = buf; cnt = 0; file = r.file ++ take (cnt * chunk_hash_size) buf }
        else record { buf = buf; cnt = cnt; file = r.file })

-- `head` is what the message of the client carries.
unfoldable pub process_recipe_end : Recipe → Bytes → Recipe
process_recipe_end r head =
    let file = if r.cnt == 0 then r.file else r.file ++ take (r.cnt * chunk_hash_size) r.buf in
    record r { file = head ++ drop (length head) file }

-- The fingerprints of one batch that was read, `tmp_fp` for `i` in `[from, from + n)`.
unfoldable pub fps_of : ℕ → ℕ → Bytes → List Bytes
fps_of zero from buf = []
fps_of (suc n) from buf =
    slice (chunk_hash_size * from) chunk_hash_size buf ∷ fps_of n (from + 1) buf

-- The loop of `Run` over what is left of the file: the fingerprints that it fetches, in order. The size
-- of a batch is a product on `uint64_t`; as a `streamsize` it is negative from 2^63 on, and nothing is
-- read.
-- `eof()` holds after a read that found fewer bytes than it asked for.
unfoldable pub read_batches : ℕ → ℕ → Bytes → List Bytes
read_batches zero batch rest = []
read_batches (suc fuel) batch rest =
    let want = u64 (batch * chunk_hash_size) in
    let buf = take want rest in
    let read_item_num = length buf / chunk_hash_size in
    let next = read_batches fuel batch (drop want rest) in
    if leb (2 ^ 63) want
    then []
    else if read_item_num == 0
    then []
    else fps_of read_item_num 0 buf ++ (if ltb (length buf) want then [] else next)
