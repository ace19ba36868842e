-- ===== src/Reconnect/Links.antt =====
-- The pointers between the two classes of rzgamereconnect/src/AuthServer: who holds whom.
use rzu.Prelude.{
  ℕ, ◌≤◌, ◌≡◌, ◌↔◌, ◌⊎◌, refl, ◌==◌, Bool, true, Option, none, some, List, [], ◌∷◌, if◌then◌else◌,
  arith,
}
use rzu.Prelude.Keyed.{Map, lookup, put, erase, number_key, lookup-put, lookup-erase}
use rzu.Reconnect.State.{AuthSession, GameServerSession, World, Message}
use rzu.Reconnect.AuthSession.{
  send_packet_to_network, send_packet, send_login, send_packets, send_all_to_network,
  send_pending_messages, packets_of, send_account_list, logout_client, disconnect, force_close,
  on_connected, on_disconnected, on_timer_reconnect,
}

abbrev pub game_of_auth : Option AuthSession → Option ℕ
game_of_auth none = none
game_of_auth (some s) = s.game_server_session

abbrev pub auth_of_game : Option GameServerSession → Option ℕ
auth_of_game none = none
auth_of_game (some t) = t.auth_session

abbrev pub game_at : World → ℕ → Option ℕ
game_at w a = game_of_auth (lookup a w.auths)

abbrev pub auth_at : World → ℕ → Option ℕ
auth_at w g = auth_of_game (lookup g w.games)

-- Each holds the other; no address past the next is used; who is to be deleted is held by nobody.
pub record IsLinked (w : World) : Type 0 where
  pub mutual_links : (a g : ℕ) → (game_at w a ≡ some g) ↔ (auth_at w g ≡ some a)
  pub fresh_auths : (a : ℕ) → w.next ≤ a → lookup a w.auths ≡ none
  pub fresh_games : (g : ℕ) → w.next ≤ g → lookup g w.games ≡ none
  pub ends_alone :
      (a : ℕ) (s : AuthSession)
      → lookup a w.auths ≡ some s
      → s.delete_later ≡ true
      → s.game_server_session ≡ none

-- What most functions of a session leave as it was.
pub record KeepsLink (s r : AuthSession) : Type 0 where
  pub game_kept : r.game_server_session ≡ s.game_server_session
  pub later_kept : r.delete_later ≡ s.delete_later

pub KeepsLink-trans : {r s t : AuthSession} → KeepsLink r s → KeepsLink s t → KeepsLink r t
KeepsLink-trans h k = ground arith

pub send_packet_to_network-KeepsLink :
    (m : Message) (s : AuthSession) → KeepsLink s (send_packet_to_network m s)
unfolding send_packet_to_network
send_packet_to_network-KeepsLink m s = ground arith

pub send_packet-KeepsLink : (m : Message) (s : AuthSession) → KeepsLink s (send_packet m s)
unfolding send_packet
send_packet-KeepsLink m s = ground arith

pub send_login-KeepsLink : (s : AuthSession) → KeepsLink s (send_login s)
unfolding send_login
send_login-KeepsLink s = ground arith

send_packets-KeepsLink : (l : List Message) (s : AuthSession) → KeepsLink s (send_packets l s)
unfolding send_packets
send_packets-KeepsLink [] s = record { game_kept = refl; later_kept = refl }
send_packets-KeepsLink (m ∷ l) s =
    KeepsLink-trans (send_packet-KeepsLink m s) (send_packets-KeepsLink l (send_packet m s))

send_all_to_network-KeepsLink :
    (l : List Message) (s : AuthSession) → KeepsLink s (send_all_to_network l s)
unfolding send_all_to_network
send_all_to_network-KeepsLink [] s = record { game_kept = refl; later_kept = refl }
send_all_to_network-KeepsLink (m ∷ l) s =
    KeepsLink-trans (send_packet_to_network-KeepsLink m s)
      (send_all_to_network-KeepsLink l (send_packet_to_network m s))

send_pending_messages-KeepsLink : (s : AuthSession) → KeepsLink s (send_pending_messages s)
unfolding send_pending_messages
send_pending_messages-KeepsLink s =
    ground (arith, send_all_to_network-KeepsLink s.pending_messages s)

pub send_account_list-KeepsLink : (s : AuthSession) → KeepsLink s (send_account_list s)
unfolding send_account_list
send_account_list-KeepsLink s =
    let begun = record s { synchronized = true } in
    KeepsLink-trans (record { game_kept = refl; later_kept = refl })
      (KeepsLink-trans (send_packets-KeepsLink (packets_of s.accounts) begun)
        (send_pending_messages-KeepsLink (send_packets (packets_of s.accounts) begun)))

pub logout_client-KeepsLink :
    (name : List ℕ) (time : ℕ) (s : AuthSession) → KeepsLink s (logout_client name time s)
unfolding logout_client
logout_client-KeepsLink name time s = ground arith

pub on_connected-KeepsLink : (s : AuthSession) → KeepsLink s (on_connected s)
unfolding on_connected
on_connected-KeepsLink s = ground arith

pub on_timer_reconnect-KeepsLink : (s : AuthSession) → KeepsLink s (on_timer_reconnect s)
unfolding on_timer_reconnect
on_timer_reconnect-KeepsLink s = ground arith

pub disconnect-alone : (s : AuthSession) → (disconnect s).game_server_session ≡ none
unfolding disconnect
disconnect-alone s = ground arith

pub force_close-alone : (s : AuthSession) → (force_close s).game_server_session ≡ none
unfolding force_close
force_close-alone s = ground arith

-- The session ends, or nothing changes for the links.
pub on_disconnected_links :
    (caused : Bool) (s : AuthSession)
    → ((on_disconnected caused s).game_server_session ≡ s.game_server_session)
      × ((on_disconnected caused s).delete_later ≡ true
          → (s.game_server_session ≡ none) ⊎ (s.delete_later ≡ true))
unfolding on_disconnected
on_disconnected_links caused s = ground arith

-- A session that keeps its links is stored again.
pub put_auth-IsLinked :
    (w : World) (a : ℕ) (s r : AuthSession)
    → lookup a w.auths ≡ some s
    → r.game_server_session ≡ s.game_server_session
    → (r.delete_later ≡ true → r.game_server_session ≡ none)
    → IsLinked w
    → IsLinked (record w { auths = put a r w.auths })
put_auth-IsLinked w a s r e k later h = record {
  mutual_links = λ b g.
      let same : game_of_auth (lookup b (put a r w.auths)) ≡ game_at w b =
        ground (arith, lookup-put a b r w.auths) in
      rw same (h.mutual_links b g);
  fresh_auths = λ b le. ground (arith, lookup-put a b r w.auths, h.fresh_auths b, h.fresh_auths a);
  fresh_games = λ b le. h.fresh_games b le;
  ends_alone = λ b s' found. ground (arith, lookup-put a b r w.auths, h.ends_alone b s');
}

-- The game servers' sessions change in ways that leave all links.
pub games-IsLinked :
    (w : World) (games : Map ℕ GameServerSession)
    → ((j : ℕ) → auth_of_game (lookup j games) ≡ auth_at w j)
    → ((j : ℕ) → w.next ≤ j → lookup j games ≡ none)
    → IsLinked w
    → IsLinked (record w { games = games })
games-IsLinked w games same fresh h = record {
  mutual_links = λ b j. rw (same j) (h.mutual_links b j);
  fresh_auths = λ b le. h.fresh_auths b le;
  fresh_games = λ b le. fresh b le;
  ends_alone = λ b s found. h.ends_alone b s found;
}

-- A game server's session that keeps its link is stored again.
pub put_game-IsLinked :
    (w : World) (g : ℕ) (t u : GameServerSession)
    → lookup g w.games ≡ some t
    → u.auth_session ≡ t.auth_session
    → IsLinked w
    → IsLinked (record w { games = put g u w.games })
put_game-IsLinked w g t u e k h =
    games-IsLinked w (put g u w.games) (λ j. ground (arith, lookup-put g j u w.games))
      (λ j le. ground (arith, lookup-put g j u w.games, h.fresh_games j, h.fresh_games g)) h

-- Two partial maps, each the other's inverse, stay so when a pair is taken out of both.
parted_pair :
    (f k : ℕ → Option ℕ)
    → ((a g : ℕ) → (f a ≡ some g) ↔ (k g ≡ some a))
    → (a g : ℕ) → k g ≡ some a
    → (b j : ℕ)
    → ((if a == b then none else f b) ≡ some j) ↔ ((if g == j then none else k j) ≡ some b)
parted_pair f k h a g held b j =
    (λ p. ground (arith, (h b j).0, (h a g).1 held), λ p. ground (arith, (h b j).1, (h a g).1 held))

-- A linked pair is parted: the session at `a` is left alone, and the other no longer holds it or is gone.
pub parted-IsLinked :
    (w : World) (a g : ℕ) (s r : AuthSession) (games : Map ℕ GameServerSession)
    → lookup a w.auths ≡ some s
    → auth_at w g ≡ some a
    → r.game_server_session ≡ none
    → ((j : ℕ) → auth_of_game (lookup j games) ≡ (if g == j then none else auth_at w j))
    → ((j : ℕ) → w.next ≤ j → lookup j games ≡ none)
    → IsLinked w
    → IsLinked (record w { auths = put a r w.auths; games = games })
parted-IsLinked w a g s r games e held alone parts fresh h = record {
  mutual_links = λ b j.
      let left : game_of_auth (lookup b (put a r w.auths))
          ≡ (if a == b then none else game_at w b) =
        ground (arith, lookup-put a b r w.auths) in
      rw (left, parts j) (parted_pair (game_at w) (auth_at w) h.mutual_links a g held b j);
  fresh_auths = λ b le. ground (arith, lookup-put a b r w.auths, h.fresh_auths b, h.fresh_auths a);
  fresh_games = λ b le. fresh b le;
  ends_alone = λ b s' found. ground (arith, lookup-put a b r w.auths, h.ends_alone b s');
}

-- A session that is held by nobody is gone.
pub erase_auth-IsLinked :
    (w : World) (a : ℕ) (s : AuthSession) (servers : Map ℕ ℕ)
    → lookup a w.auths ≡ some s
    → s.game_server_session ≡ none
    → IsLinked w
    → IsLinked (record w { auths = erase a w.auths; servers = servers })
erase_auth-IsLinked w a s servers e alone h = record {
  mutual_links = λ b j.
      let same : game_of_auth (lookup b (erase a w.auths)) ≡ game_at w b =
        ground (arith, lookup-erase a b w.auths) in
      rw same (h.mutual_links b j);
  fresh_auths = λ b le. ground (arith, lookup-erase a b w.auths, h.fresh_auths b);
  fresh_games = λ b le. h.fresh_games b le;
  ends_alone = λ b s' found. ground (arith, lookup-erase a b w.auths, h.ends_alone b s');
}
