-- ===== src/Auth/GameServer/Safety/Accounts.antt =====
-- The list of accounts that a game server synchronises (`onAccountList` of GameServerSession.cpp)
-- keeps the invariant.
use rzu.Prelude.{
  Returns, Returns-bind, Returns-mono, ℕ, ◌≡◌, refl, true, none, some, List, [], ◌∷◌, arith,
  Option-cases, Bool-cases, inl, inr, ◌+◌, ◌*◌, ◌==◌,
}
use rzu.Prelude.Keyed.{
  lookup, adjust, put, adjust-put, lookup-put, lookup-adjust, number_key, bytes_key,
}
use rzu.Auth.State.{ClientData, AccountInfo, World}
use rzu.Auth.Client.Registry.{
  NewClient, new_client, register, try_add_client, to_lower, inc_player_count,
}
use rzu.Auth.Client.Moves.{
  to_server, enter_game, switch_client_to_server, entered, connected_to_game_lem, remove_server,
}
use rzu.Auth.Client.Consistency.{next_address_free}
use rzu.Auth.Game.Servers.{set_ready}
use rzu.Auth.GameServer.Packets.{
  AccountListPacket, account_list_size, account_info_size, convert_to_string,
}
use rzu.Auth.GameServer.Handlers.{
  sync_added, set_accounts, sync_account, sync_accounts, synchronize, on_account_list,
}
use rzu.Auth.Invariant.Defs.{IsSound, IsOwned, IsLive, frame-IsSound}
use rzu.Auth.Invariant.Players.{register-IsSound, switch-IsSound, entered-IsSound}
use rzu.Auth.Invariant.Sweep.{Swept, remove_server_lem}
use rzu.Auth.Invariant.Games.{touch-IsSound, touch-IsOwned, set_ready-IsSound}
use rzu.Auth.Invariant.Servers.{Swept-IsOwned}
use rzu.Auth.GameServer.Safety.Login.{Keeps, logged-Keeps}

-- The same player, held by a session in between.
abbrev held : NewClient → NewClient
held n = record n { session = some 0 }

module _ (n : NewClient) (g now : ℕ) (w : World) (v : IsSound w)
    (free_id : lookup n.account_id w.connected_clients ≡ none)
    (free_name : lookup (to_lower n.account) w.connected_clients_by_name ≡ none)
    (live : IsLive (lookup g w.games)) where
  registered_lookup :
      (m : NewClient) → lookup w.next_address (register m w).clients ≡ some (new_client m)
  unfolding register
  registered_lookup m =
      ground (arith, lookup-put w.next_address w.next_address (new_client m) w.clients)

  switched_same :
      switch_client_to_server w.next_address g 0 (register n w)
      ≡ switch_client_to_server w.next_address g 0 (register (held n) w)
  unfolding switch_client_to_server register
  switched_same =
      rw
        (
          adjust-put w.next_address (to_server g 0) (new_client n) w.clients
              (next_address_free w v.consistent),
          adjust-put w.next_address (to_server g 0) (new_client (held n)) w.clients
              (next_address_free w v.consistent),
        )
        refl

  switched-IsSound : IsSound (switch_client_to_server w.next_address g 0 (register n w))
  unfolding register
  switched-IsSound = rw switched_same (
      switch-IsSound w.next_address g 0 (new_client (held n)) (register (held n) w)
        (register-IsSound (held n) 0 w v refl free_id free_name) (registered_lookup (held n)) refl
        live)

  abbrev synced_client : ClientData
  synced_client = to_server g 0 (new_client n)

  switched_lookup :
      lookup w.next_address (switch_client_to_server w.next_address g 0 (register n w)).clients
      ≡ some synced_client
  unfolding switch_client_to_server
  switched_lookup = ground (
    arith,
    lookup-adjust w.next_address w.next_address (to_server g 0) (register n w).clients,
    registered_lookup n,
  )

  abbrev inside : World
  inside = entered w.next_address now g (switch_client_to_server w.next_address g 0 (register n w))

  inside-IsSound : IsSound inside
  inside-IsSound =
      entered-IsSound w.next_address now g synced_client _ switched-IsSound switched_lookup refl
        refl

  inside_lookup : lookup w.next_address inside.clients ≡ some (enter_game now synced_client)
  unfolding entered
  inside_lookup = ground (
    arith,
    lookup-adjust w.next_address w.next_address (enter_game now)
        (switch_client_to_server w.next_address g 0 (register n w)).clients,
    switched_lookup,
  )

  inside-IsOwned : IsOwned w → IsOwned inside
  unfolding entered switch_client_to_server register
  inside-IsOwned o = record {
    points = λ s q h. ground (
      arith,
      o.points s q h,
      next_address_free w v.consistent,
      lookup-adjust w.next_address q (enter_game now)
          (adjust w.next_address (to_server g 0) (put w.next_address (new_client n) w.clients)),
      lookup-adjust w.next_address q (to_server g 0) (put w.next_address (new_client n) w.clients),
      lookup-put w.next_address q (new_client n) w.clients,
    );
    holds = λ q s d h m.
        o.holds q s d
          (ground (
            arith,
            h,
            m,
            lookup-adjust w.next_address q (enter_game now) (
                adjust w.next_address (to_server g 0)
                  (put w.next_address (new_client n) w.clients)),
            lookup-adjust w.next_address q (to_server g 0)
                (put w.next_address (new_client n) w.clients),
            lookup-put w.next_address q (new_client n) w.clients,
          ))
          m;
  }

-- What one account leaves: the invariant, and the live game server.
record Synced (g : ℕ) (w w' : World) : Type 0 where
  pub keeps : Keeps w w'
  pub live : IsLive (lookup g w'.games)

Synced-trans : (g : ℕ) (w w' w'' : World) → Synced g w w' → Synced g w' w'' → Synced g w w''
Synced-trans g w w' w'' a b = record {
  keeps = record { sound = b.keeps.sound; owned = λ h. b.keeps.owned (a.keeps.owned h) };
  live = b.live;
}

entered_games :
    (p now g : ℕ) (w : World)
    → IsLive (lookup g w.games)
    → IsLive (lookup g (entered p now g w).games)
unfolding entered
entered_games p now g w live = ground (arith, lookup-adjust g g inc_player_count w.games)

switched_games :
    (h : ℕ) (n : NewClient) (g : ℕ) (w : World)
    → IsLive (lookup h w.games)
    → IsLive (lookup h (switch_client_to_server w.next_address g 0 (register n w)).games)
unfolding switch_client_to_server register
switched_games h n g w live = live

added-Returns :
    (n : NewClient) (a : AccountInfo) (g now : ℕ) (w : World)
    → IsSound w
    → lookup n.account_id w.connected_clients ≡ none
    → lookup (to_lower n.account) w.connected_clients_by_name ≡ none
    → IsLive (lookup g w.games)
    → Returns (Synced g w) (sync_added g a now w.next_address (register n w))
unfolding sync_added
added-Returns n a g now w v free_id free_name live =
    rw
      (connected_to_game_lem w.next_address now g (synced_client n g now w v free_id free_name live)
        (switch_client_to_server w.next_address g 0 (register n w))
        (switched_lookup n g now w v free_id free_name live) refl)
      (record {
        keeps = record {
          sound =
              touch-IsSound w.next_address _ _ _ sound
                (inside_lookup n g now w v free_id free_name live) (λ _. refl) (λ _. refl)
                (λ _. refl) (λ _. refl) (λ _. refl);
          owned = λ o.
              touch-IsOwned w.next_address _ _ _ sound
                (inside_lookup n g now w v free_id free_name live) (λ _. refl) (λ _. refl)
                (λ _. refl) (λ _. refl) (λ _. refl)
                (inside-IsOwned n g now w v free_id free_name live o);
        };
        live = entered_games w.next_address now g _ switched_live;
      })
  where
    sound : IsSound (inside n g now w v free_id free_name live)
    sound = inside-IsSound n g now w v free_id free_name live

    switched_live :
        IsLive (lookup g (switch_client_to_server w.next_address g 0 (register n w)).games)
    switched_live = switched_games g n g w live

sync_account-Returns :
    (s g now : ℕ) (a : AccountInfo) (w : World)
    → IsSound w
    → IsLive (lookup g w.games)
    → Returns (Synced g w) (sync_account s g now a w)
unfolding sync_account try_add_client
sync_account-Returns s g now a w v live =
    elim (Option-cases (lookup a.account_id w.connected_clients)) [
      | inr (old, e) ↦ rw (e, sync_account) (record { keeps = logged-Keeps _ w v; live = live })
      | inl e ↦
          elim (Option-cases
            (lookup (to_lower (convert_to_string a.account 60)) w.connected_clients_by_name)) [
              | inr (old, f) ↦
                  rw (e, sync_account)
                    (rw (f, sync_account) (record { keeps = logged-Keeps _ w v; live = live }))
              | inl f ↦
                  rw (e, sync_account) (rw (f, sync_account) (added-Returns _ a g now w v e f live))
            ]
    ]

sync_accounts-Returns :
    (s g now : ℕ) (accounts : List AccountInfo) (w : World)
    → IsSound w
    → IsLive (lookup g w.games)
    → Returns (Synced g w) (sync_accounts s g now accounts w)
unfolding sync_accounts
sync_accounts-Returns s g now [] w v live = record {
  keeps = record { sound = v; owned = λ h. h };
  live = live;
}
sync_accounts-Returns s g now (a ∷ rest) w v live =
    Returns-bind (Synced g w) (Synced g w) (sync_account s g now a w) _
      (sync_account-Returns s g now a w v live)
      (λ w' r.
        Returns-mono (Synced g w') (Synced g w) _ (λ w'' r'. Synced-trans g w w' w'' r r')
          (sync_accounts-Returns s g now rest w' r.keeps.sound r.live))

synchronized :
    (s g : ℕ) (w synced : World)
    → IsSound (set_ready g true synced)
    → (IsOwned w → IsOwned synced)
    → Keeps w (set_accounts s [] (set_ready g true synced))
unfolding set_ready
synchronized s g w synced v o = record { sound = frame-IsSound _ _ _ _ v; owned = o }

-- The accounts of the last packet replace all players of the server.
pub synchronize-Returns :
    (s g now : ℕ) (w : World)
    → IsSound w
    → IsLive (lookup g w.games)
    → Returns (Keeps w) (synchronize s g now w)
unfolding synchronize set_ready
synchronize-Returns s g now w v live =
    Returns-bind (Swept g w) (Keeps w) (remove_server g w) _ (remove_server_lem g w v) (λ emptied r.
      Returns-bind (Synced g emptied) (Keeps w)
        (sync_accounts s g now (emptied.game_sessions s).already_connected emptied) _
        (sync_accounts-Returns s g now _ emptied r.sound (r.live g live))
        (λ synced k.
          synchronized s g w synced (set_ready-IsSound g true synced k.keeps.sound)
            (λ o. k.keeps.owned (Swept-IsOwned g w emptied v r o))))

pub on_account_list-Returns :
    (s : ℕ) (packet : AccountListPacket) (now : ℕ) (w : World)
    → IsSound w
    → Returns (Keeps w) (on_account_list s packet now w)
unfolding on_account_list
on_account_list-Returns s packet now w v = elim (Option-cases (w.links.game_of s)) [
  | inl e ↦ rw (e, on_account_list) (record { sound = v; owned = λ h. h })
  | inr (g, e) ↦
      rw (e, on_account_list)
        (elim (Bool-cases (packet.count * account_info_size + account_list_size == packet.size)) [
          | inr bad ↦ rw (bad, on_account_list) (record { sound = v; owned = λ h. h })
          | inl good ↦ elim (Bool-cases packet.final_packet) [
            | inr more ↦
                rw (good, on_account_list)
                  (rw (more, on_account_list)
                    (record { sound = frame-IsSound w _ _ _ v; owned = λ h. h }))
            | inl last ↦
                rw (good, on_account_list)
                  (rw (last, on_account_list)
                    (Returns-mono (Keeps _) (Keeps w) _
                      (λ w' k. record { sound = k.sound; owned = k.owned })
                      (synchronize-Returns s g now _ (frame-IsSound w _ _ _ v)
                        (v.session_live g s (v.linked.game_end s g e)))))
          ]
        ])
]
