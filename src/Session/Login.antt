-- ===== src/Session/Login.antt =====
-- Which logins are answered how.
use edrstore.Prelude.{
  ◌+◌, ◌++◌, Option, none, some, true, Bytes, length, u64, ok, read-append, ◌≡◌, ◌↔◌, ap, arith,
}
use edrstore.Session.{
  LoginType, client_login_upload, client_login_download, other_login, server_file_non_exist,
  server_login_response, ServerOpt, Peer, opt_type_of, check_file_stat, admit, login,
}

-- The session sends the rejection, and goes on without an end of the process, exactly for a download of
-- a file that has no recipe, when the client takes the reply and closes the connection; the counters
-- stay.
pub login-server_file_non_exist :
    (peer : Peer) (head_buf : Bytes) (recipe : Option Bytes) (kind : LoginType) (s s' : ServerOpt)
    → (login peer head_buf recipe kind s ≡ ok (server_file_non_exist, s')) ↔ (
        (kind ≡ client_login_download)
        × (recipe ≡ none)
        × (peer.takes_reply ≡ true)
        × (peer.closes ≡ true)
        × (s ≡ s'))
unfolding login admit opt_type_of check_file_stat
login-server_file_non_exist peer head_buf (some r) client_login_upload s s' = ground arith
login-server_file_non_exist peer head_buf none client_login_upload s s' = ground arith
login-server_file_non_exist peer head_buf (some r) client_login_download s s' = ground arith
login-server_file_non_exist peer head_buf none client_login_download s s' = ground arith
login-server_file_non_exist peer head_buf recipe other_login s s' = ground arith

-- The download of a file whose recipe starts with a head of the right size is answered with this head,
-- when the client takes the reply, and counted.
pub login-head :
    (peer : Peer) (head_buf head body : Bytes) (s : ServerOpt)
    → length head ≡ length head_buf
    → peer.takes_reply ≡ true
    → login peer head_buf (some (head ++ body)) client_login_download s
      ≡ ok (
        server_login_response head,
        record s { total_download_opt_num = u64 (s.total_download_opt_num + 1) },
      )
unfolding login admit opt_type_of check_file_stat
login-head peer head_buf head body s size takes = rw (takes) (
    ap
      (λ t. ok (
        server_login_response t.0,
        record s { total_download_opt_num = u64 (s.total_download_opt_num + 1) },
      ))
      (read-append head_buf head body size))
