-- ===== src/Auth/Invariant/Players.antt =====
-- The operations of ClientData.cpp keep the invariant.
use rzu.Prelude.{ℕ, ◌≡◌, refl, Bool, false, Option, none, some, arith}
use rzu.Prelude.Keyed.{
  Map, lookup, adjust, lookup-erase, lookup-put, lookup-adjust, number_key, bytes_key,
}
use rzu.Auth.State.{ClientData, GameData, World}
use rzu.Auth.Client.Registry.{
  NewClient, new_client, register, to_lower, forget, dec_player_count, inc_player_count, unregister,
  remove_client, remove_client_by_id,
}
use rzu.Auth.Client.Moves.{to_server, enter_game, switch_client_to_server, entered}
use rzu.Auth.Client.Consistency.{
  adjust-IsConsistent, IsConsistent, register-IsConsistent, without-IsConsistent,
}
use rzu.Auth.Client.Counting.{
  switch-IsCounted, entered-IsCounted, register-IsCounted, forget-IsCounted, lookup-at_server,
}
use rzu.Auth.Invariant.Defs.{IsSound, IsLive, HeldBy, IsPlaced, HasIndex}

pub forget_games :
    (p : ℕ) (c : ClientData) (w : World) (g : ℕ)
    → IsLive (lookup g w.games)
    → IsLive (lookup g (forget p c w).games)
unfolding forget
forget_games p c w g h = ground (arith, lookup-at_server c.server dec_player_count w.games g)

pub forget-tabled :
    (p : ℕ) (c : ClientData) (w : World) (g i : ℕ)
    → HasIndex i (lookup g w.games)
    → HasIndex i (lookup g (forget p c w).games)
unfolding forget
forget-tabled p c w g i h = ground (arith, lookup-at_server c.server dec_player_count w.games g)

forget-back :
    (p : ℕ) (c : ClientData) (w : World) (g : ℕ)
    → IsLive (lookup g (forget p c w).games)
    → IsLive (lookup g w.games)
unfolding forget
forget-back p c w g h = ground (arith, lookup-at_server c.server dec_player_count w.games g)

pub Placed-mono :
    (games games' : Map ℕ GameData)
    → ((g : ℕ) → IsLive (lookup g games) → IsLive (lookup g games'))
    → (o : Option ClientData) → IsPlaced games o
    → IsPlaced games' o
Placed-mono games games' live none h = tt
Placed-mono games games' live (some c) h = go c.client c.server c.in_game h
  where
    go : (s g : Option ℕ) (b : Bool) → HeldBy games s g b → HeldBy games' s g b
    go none none b k = k
    go (some s) none b k = k
    go none (some g) b k = live g k
    go (some s) (some g) b k = k

-- Forgetting a live player.
pub forget-IsSound :
    (p : ℕ) (c : ClientData) (w : World)
    → IsSound w
    → lookup p w.clients ≡ some c
    → IsSound (forget p c w)
unfolding forget
forget-IsSound p c w v e = record {
  consistent = record {
    unique = (without-IsConsistent p c w v.consistent e).unique;
    unique_ids = (without-IsConsistent p c w v.consistent e).unique_ids;
    fresh = (without-IsConsistent p c w v.consistent e).fresh;
    by_id = (without-IsConsistent p c w v.consistent e).by_id;
    by_name = (without-IsConsistent p c w v.consistent e).by_name;
    listed = (without-IsConsistent p c w v.consistent e).listed;
  };
  counted = forget-IsCounted p c w v.consistent.unique e v.counted;
  placed = λ q.
      Placed-mono w.games (forget p c w).games (forget_games p c w) _
        (ground (arith, lookup-erase p q w.clients, v.placed q));
  unique_servers = v.unique_servers;
  tabled = λ i g h. forget-tabled p c w g i (v.tabled i g h);
  game_fresh = λ g h. v.game_fresh g (forget-back p c w g h);
  linked = v.linked;
  session_live = λ g s h. forget_games p c w g (v.session_live g s h);
}

-- In a sound state `removeClient` on a live player finds it by its id and forgets exactly that
-- player, in both maps and in its server's count.
pub remove_client_lem :
    (p : ℕ) (c : ClientData) (w : World)
    → IsSound w
    → lookup p w.clients ≡ some c
    → remove_client p w ≡ some (forget p c w)
unfolding remove_client remove_client_by_id unregister
remove_client_lem p c w v e = ground (arith, (v.consistent.listed p c e).0)

-- A new player, held by the session that logged it in.
pub register-IsSound :
    (n : NewClient) (s : ℕ) (w : World)
    → IsSound w
    → n.session ≡ some s
    → lookup n.account_id w.connected_clients ≡ none
    → lookup (to_lower n.account) w.connected_clients_by_name ≡ none
    → IsSound (register n w)
unfolding register
register-IsSound n s w v held free_id free_name = record {
  consistent = register-IsConsistent n w v.consistent free_id free_name;
  counted = register-IsCounted n w v.consistent v.counted;
  placed = λ p. ground (arith, lookup-put w.next_address p (new_client n) w.clients, v.placed p);
  unique_servers = v.unique_servers;
  tabled = v.tabled;
  game_fresh = λ g h. let below = v.game_fresh g h in omega arith;
  linked = v.linked;
  session_live = v.session_live;
}

-- The hand-over of a player from its session to a live game server.
pub switch-IsSound :
    (p g key : ℕ) (c : ClientData) (w : World)
    → IsSound w
    → lookup p w.clients ≡ some c
    → c.in_game ≡ false
    → IsLive (lookup g w.games)
    → IsSound (switch_client_to_server p g key w)
unfolding switch_client_to_server
switch-IsSound p g key c w v e out live = record {
  consistent = record {
    unique = kept.unique;
    unique_ids = kept.unique_ids;
    fresh = kept.fresh;
    by_id = kept.by_id;
    by_name = kept.by_name;
    listed = kept.listed;
  };
  counted = switch-IsCounted p g key c w v.consistent.unique e out v.counted;
  placed = λ q. ground (arith, lookup-adjust p q (to_server g key) w.clients, v.placed q);
  unique_servers = v.unique_servers;
  tabled = v.tabled;
  game_fresh = v.game_fresh;
  linked = v.linked;
  session_live = v.session_live;
}
  where
    kept : IsConsistent (record w { clients = adjust p (to_server g key) w.clients })
    kept = adjust-IsConsistent p (to_server g key) w v.consistent (λ c. refl) (λ c. refl)

module _ (p now g : ℕ) (c : ClientData) (w : World) (v : IsSound w)
    (e : lookup p w.clients ≡ some c) where
  entered_kept : IsConsistent (record w { clients = adjust p (enter_game now) w.clients })
  entered_kept = adjust-IsConsistent p (enter_game now) w v.consistent (λ c. refl) (λ c. refl)

  entered-IsPlaced :
      (q : ℕ)
      → c.server ≡ some g
      → IsPlaced
          (adjust g inc_player_count w.games)
          (lookup q (adjust p (enter_game now) w.clients))
  entered-IsPlaced q on = ground (
    arith,
    Placed-mono w.games (adjust g inc_player_count w.games)
        (λ h l. ground (arith, lookup-adjust g h inc_player_count w.games)) (lookup q w.clients)
        (v.placed q),
    lookup-adjust p q (enter_game now) w.clients,
    lookup-adjust g g inc_player_count w.games,
    v.placed p,
  )

  -- A player that its server has let in.
  pub entered-IsSound : c.server ≡ some g → c.in_game ≡ false → IsSound (entered p now g w)
  unfolding entered
  entered-IsSound on out = record {
    consistent = record {
      unique = entered_kept.unique;
      unique_ids = entered_kept.unique_ids;
      fresh = entered_kept.fresh;
      by_id = entered_kept.by_id;
      by_name = entered_kept.by_name;
      listed = entered_kept.listed;
    };
    counted = entered-IsCounted p now g c w v.consistent.unique e on out v.counted;
    placed = λ q. entered-IsPlaced q on;
    unique_servers = v.unique_servers;
    tabled = λ i h k. ground (arith, lookup-adjust g h inc_player_count w.games, v.tabled i h k);
    game_fresh = λ h k. ground (arith, lookup-adjust g h inc_player_count w.games, v.game_fresh h);
    linked = v.linked;
    session_live =
        λ h s k. ground (arith, lookup-adjust g h inc_player_count w.games, v.session_live h s k);
  }
