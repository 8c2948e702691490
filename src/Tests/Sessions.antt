-- ===== src/Tests/Sessions.antt =====
-- Sessions of the server: two of one client, and logins.
use edrstore.Prelude.{
  ℕ, [], ◌∷◌, Option, none, some, true, false, Bytes, ℕ_discrete, find, assign, ok, ◌≡◌, ◌↔◌, ◌⊎◌,
  refl, arith,
}
use edrstore.Session.{client_login_download, server_file_non_exist, ServerOpt, Peer, login}
use edrstore.Session.Names.{recipe_path-inj}
use edrstore.Session.Login.{login-server_file_non_exist}
use edrstore.Session.Lock.{
  arrived, trying, holding, Server, update, find_lock, set_lock, Step, log_in, look_up, lock, start,
  Reach, here, next,
}
use edrstore.Session.Exclusion.{Reach-holding_one, Reach-trying_goes_on}

-- Sessions 0 and 1 log in for client 5 and find its mutex.
abbrev both_try : Server
both_try = record {
  client_lck_idx = find_lock 5 (find_lock 5 []);
  stage =
      update (update (update (update start.stage 0 (arrived 5)) 1 (arrived 5)) 0 (trying 5)) 1
        (trying 5);
}

both_try-Reach : Reach both_try
unfolding update ℕ_discrete
both_try-Reach =
    next (next (next (next here (log_in 0 5 refl)) (log_in 1 5 refl)) (look_up 0 5 refl))
      (look_up 1 5 refl)

-- Session 0 holds the lock and session 1 waits for it.
abbrev one_holds : Server
one_holds = record {
  client_lck_idx = set_lock true 5 both_try.client_lck_idx;
  stage = update both_try.stage 0 (holding 5);
}

one_holds-Reach : Reach one_holds
unfolding update ℕ_discrete find find_lock assign
one_holds-Reach = next both_try-Reach (lock 0 5 refl refl)

Reach-holding_one_example : ◌≡◌ {A = ℕ} 0 0
unfolding update ℕ_discrete
Reach-holding_one_example = Reach-holding_one one_holds-Reach 0 0 5 refl refl

Reach-trying_goes_on_example :
    ((t : Server) × Step one_holds t × (t.stage 1 ≡ holding 5))
    ⊎ ((j : ℕ) × (t : Server) × (one_holds.stage j ≡ holding 5)
        × Step one_holds t
        × (t.stage 1 ≡ trying 5)
        × (find ℕ_discrete 5 t.client_lck_idx ≡ some false))
unfolding update ℕ_discrete
Reach-trying_goes_on_example = Reach-trying_goes_on one_holds-Reach 1 5 refl

abbrev counts : ServerOpt
counts = record { total_upload_opt_num = 2; total_download_opt_num = 3 }

abbrev peer : Peer
peer = record { takes_reply = true; closes = true }

login-server_file_non_exist_example :
    (login peer (0 ∷ []) none client_login_download counts ≡ ok (server_file_non_exist, counts)) ↔ (
      (client_login_download ≡ client_login_download)
      × (◌≡◌ {A = Option Bytes} none none)
      × (peer.takes_reply ≡ true)
      × (peer.closes ≡ true)
      × (counts ≡ counts))
login-server_file_non_exist_example =
    login-server_file_non_exist peer (0 ∷ []) none client_login_download counts counts

recipe_path-inj_example : ◌≡◌ {A = Bytes} (10 ∷ 255 ∷ []) (10 ∷ 255 ∷ [])
recipe_path-inj_example =
    recipe_path-inj (47 ∷ []) (46 ∷ []) (10 ∷ 255 ∷ []) (10 ∷ 255 ∷ [])
      (omega arith, (omega arith, tt)) (omega arith, (omega arith, tt)) refl refl
