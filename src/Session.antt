-- ===== src/Session.antt =====
-- EDRStore/src/server/server_opt_thd.cc: one session of a client on the server. The threads that it
-- starts are the modules Upload and Download.
pub mod Lock
pub mod Exclusion
pub mod Names
pub mod Login
pub mod Stat
use edrstore.Prelude.{
  ℕ, ◌+◌, ◌/◌, ◌%◌, [], ◌∷◌, ◌++◌, Option, none, some, Bool, true, false, Bytes, u64, ltb,
  if◌then◌else◌, Outcome, ok, exit_failure, ◌>>=◌, open_stream, read,
}

-- The types of the first message of a session.
pub data LoginType : Type 0 where
  client_login_upload client_login_download other_login : LoginType

pub data OptType : Type 0 where
  upload_opt download_opt : OptType

-- The first switch of `Run`.
unfoldable pub opt_type_of : LoginType → Outcome OptType
opt_type_of client_login_upload = ok upload_opt
opt_type_of client_login_download = ok download_opt
opt_type_of other_login = exit_failure

-- `sprintf("%02x")`, in the codes of the characters.
unfoldable pub hex_digit : ℕ → ℕ
hex_digit d = if ltb d 10 then 48 + d else 87 + d

unfoldable pub hex_name : Bytes → Bytes
unfolding hex_digit
hex_name [] = []
hex_name (b ∷ bs) = hex_digit (b / 16) ∷ hex_digit (b % 16) ∷ hex_name bs

unfoldable pub recipe_path : Bytes → Bytes → Bytes → Bytes
unfolding hex_name
recipe_path root suffix file_hash = root ++ hex_name file_hash ++ suffix

-- `CheckFileStat`, on whether the recipe exists.
unfoldable pub check_file_stat : Bool → OptType → Bool
check_file_stat true _ = true
check_file_stat false upload_opt = true
check_file_stat false download_opt = false

-- What the session sends first: a rejection, or the response, with the head of the recipe for a
-- download.
pub data Reply : Type 0 where
  server_file_non_exist : Reply
  server_login_response : Bytes → Reply

-- The counters of operations, and the sessions' replies, rejected or served.
pub record ServerOpt : Type 0 where
  pub total_upload_opt_num : ℕ
  pub total_download_opt_num : ℕ

-- The client's behaviour on the connection: whether it takes the reply, and whether it closes the
-- connection after a rejection.
pub record Peer : Type 0 where
  pub takes_reply : Bool
  pub closes : Bool

module _ (peer : Peer) (head_buf : Bytes) (recipe : Option Bytes) where
  -- The part after the login type is known: the check of the file, and the second switch up to the
  -- reply. `head_buf` is what the place of the recipe's head in the message held.
  unfoldable pub admit : OptType → Bool → ServerOpt → Outcome (Reply × ServerOpt)
  unfolding read
  admit opt false s =
      if peer.takes_reply
      then (if peer.closes then ok (server_file_non_exist, s) else exit_failure)
      else exit_failure
  admit upload_opt true s =
      if peer.takes_reply
      then ok (
        server_login_response [],
        record s { total_upload_opt_num = u64 (s.total_upload_opt_num + 1) },
      )
      else exit_failure
  admit download_opt true s =
      let file : Bytes = elim recipe [ some content ↦ content | none ↦ [] ] in
      if peer.takes_reply
      then ok (
        server_login_response (read head_buf (open_stream file)).0,
        record s { total_download_opt_num = u64 (s.total_download_opt_num + 1) },
      )
      else exit_failure

  -- `Run` up to the reply.
  unfoldable pub login : LoginType → ServerOpt → Outcome (Reply × ServerOpt)
  unfolding opt_type_of check_file_stat admit
  login kind s = opt_type_of kind >>= λ opt.
      admit opt (check_file_stat (elim recipe as (λ _. Bool) [ some _ ↦ true | none ↦ false ]) opt)
        s
