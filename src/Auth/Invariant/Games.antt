-- ===== src/Auth/Invariant/Games.antt =====
-- The operations of GameData.cpp keep the invariant.
use rzu.Prelude.{ℕ, ◌≤◌, ◌≡◌, refl, Bool, none, some, arith, Option-cases, inl, inr}
use rzu.Prelude.Keyed.{lookup, adjust, lookup-adjust, count-adjust, number_key}
use rzu.Auth.State.{ClientData, World}
use rzu.Auth.Client.Consistency.{IsConsistent, adjust-IsConsistent}
use rzu.Auth.Client.Counting.{IsCounted, plays_on}
use rzu.Auth.Game.Link.{attached, attached-IsLinked, detached, detached-IsLinked}
use rzu.Auth.Game.Servers.{ready, set_ready}
use rzu.Auth.Invariant.Defs.{IsSound, IsOwned, IsLive, IsPlaced}
use rzu.Auth.Invariant.Players.{Placed-mono}

-- A write to a live player that moves it nowhere.
module _ (p : ℕ) (f : ClientData → ClientData) (c : ClientData) (w : World) (v : IsSound w)
    (e : lookup p w.clients ≡ some c) (account : (d : ClientData) → (f d).account ≡ d.account)
    (account_id : (d : ClientData) → (f d).account_id ≡ d.account_id)
    (client : (d : ClientData) → (f d).client ≡ d.client)
    (server : (d : ClientData) → (f d).server ≡ d.server)
    (in_game : (d : ClientData) → (f d).in_game ≡ d.in_game) where
  touch-IsCounted : IsCounted (record w { clients = adjust p f w.clients })
  touch-IsCounted g = ground (
    arith,
    v.counted g,
    count-adjust (plays_on g) p f c w.clients v.consistent.unique e,
    server c,
    in_game c,
  )

  touch-IsPlaced : (q : ℕ) → IsPlaced w.games (lookup q (adjust p f w.clients))
  touch-IsPlaced q = elim (Option-cases (lookup q w.clients)) [
    | inl n ↦ ground (arith, lookup-adjust p q f w.clients)
    | inr (d, n) ↦
        ground (arith, lookup-adjust p q f w.clients, v.placed q, client d, server d, in_game d)
  ]

  pub touch-IsSound : IsSound (record w { clients = adjust p f w.clients })
  touch-IsSound = record {
    consistent = adjust-IsConsistent p f w v.consistent account account_id;
    counted = touch-IsCounted;
    placed = touch-IsPlaced;
    unique_servers = v.unique_servers;
    tabled = v.tabled;
    game_fresh = v.game_fresh;
    linked = v.linked;
    session_live = v.session_live;
  }

  pub touch-IsOwned : IsOwned w → IsOwned (record w { clients = adjust p f w.clients })
  touch-IsOwned o = record {
    points = λ s q h. elim (Option-cases (lookup q w.clients)) [
      | inl n ↦ absurd (ground (arith, o.points s q h))
      | inr (d, n) ↦ ground (arith, lookup-adjust p q f w.clients, o.points s q h, client d)
    ];
    holds = λ q s d h m. elim (Option-cases (lookup q w.clients)) [
      | inl n ↦ absurd (ground (arith, lookup-adjust p q f w.clients, n, h))
      | inr (b, n) ↦
          o.holds q s b n (ground (arith, lookup-adjust p q f w.clients, n, h, client b, m))
    ];
  }

pub same-IsConsistent :
    (w w' : World)
    → w'.clients ≡ w.clients
    → w'.connected_clients ≡ w.connected_clients
    → w'.connected_clients_by_name ≡ w.connected_clients_by_name
    → w.next_address ≤ w'.next_address
    → IsConsistent w
    → IsConsistent w'
same-IsConsistent w w' c i n a v = record {
  unique = rw c v.unique;
  unique_ids = rw i v.unique_ids;
  fresh = λ p d e. let old = v.fresh p d (rw c at e) in omega arith;
  by_id = λ k p e. rw c (v.by_id k p (rw i at e));
  by_name = λ k p e. rw c (v.by_name k p (rw n at e));
  listed = λ p d e. rw (i, n) (v.listed p d (rw c at e));
}

-- A write to a live game server that changes neither its index nor its count.
pub set_ready-IsSound : (g : ℕ) (b : Bool) (w : World) → IsSound w → IsSound (set_ready g b w)
unfolding set_ready
set_ready-IsSound g b w v = record {
  consistent = same-IsConsistent w _ refl refl refl (omega arith) v.consistent;
  counted = λ h. ground (arith, lookup-adjust g h (ready b) w.games, v.counted h);
  placed = λ p.
      Placed-mono w.games _ (λ h l. ground (arith, lookup-adjust g h (ready b) w.games)) _
        (v.placed p);
  unique_servers = v.unique_servers;
  tabled = λ i h e. ground (arith, lookup-adjust g h (ready b) w.games, v.tabled i h e);
  game_fresh = λ h l. v.game_fresh h (ground (arith, lookup-adjust g h (ready b) w.games));
  linked = v.linked;
  session_live = λ h s e. ground (arith, lookup-adjust g h (ready b) w.games, v.session_live h s e);
}

-- A session without a game server takes a live one over.
pub link-IsSound :
    (s g : ℕ) (w : World)
    → IsSound w
    → w.links.game_of s ≡ none
    → IsLive (lookup g w.games)
    → IsSound (record w { links = attached s g w.links })
unfolding attached
link-IsSound s g w v free live = record {
  consistent = same-IsConsistent w _ refl refl refl (omega arith) v.consistent;
  counted = v.counted;
  placed = v.placed;
  unique_servers = v.unique_servers;
  tabled = v.tabled;
  game_fresh = v.game_fresh;
  linked = attached-IsLinked s g w.links v.linked free;
  session_live = λ h t e. ground (arith, v.session_live h t);
}

pub unlink-IsSound :
    (s g : ℕ) (w : World)
    → IsSound w
    → w.links.game_of s ≡ some g
    → IsSound (record w { links = detached s g w.links })
unfolding detached
unlink-IsSound s g w v e = record {
  consistent = same-IsConsistent w _ refl refl refl (omega arith) v.consistent;
  counted = v.counted;
  placed = v.placed;
  unique_servers = v.unique_servers;
  tabled = v.tabled;
  game_fresh = v.game_fresh;
  linked = detached-IsLinked s g w.links v.linked e;
  session_live = λ h t e. ground (arith, v.session_live h t);
}
