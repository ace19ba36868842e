-- ===== src/Auth/Invariant/Servers.antt =====
-- A game server that appears, and one that goes, keep the invariant.
use rzu.Prelude.{
  Returns, ℕ, ◌≡◌, refl, Bool, false, Option, none, some, Bytes, arith, [], ◌∷◌, ◌++◌, ◌>>=◌,
  Option-cases, inl, inr,
}
use rzu.Prelude.Keyed.{
  lookup, erase, lookup-erase, lookup-put, IsUnique-put, IsUnique-erase, count, count-eq_zero,
  number_key,
}
use rzu.Auth.State.{ServerInfo, GameData, World, update, send, send_log, game_server_logout}
use rzu.Auth.Client.Moves.{is_server, remove_server}
use rzu.Auth.Client.Counting.{plays_on}
use rzu.Auth.Game.Link.{IsLinked, constructed, detached, detached-IsLinked}
use rzu.Auth.Game.Servers.{
  new_game, create_game, delete_game, remove_game, server_numbers, server_texts,
}
use rzu.Auth.GameServer.Handlers.{clear_game_data}
use rzu.Auth.Invariant.Defs.{IsSound, IsOwned, HeldBy, IsPlaced}
use rzu.Auth.Invariant.Players.{Placed-mono}
use rzu.Auth.Invariant.Sweep.{Swept, IsAway, Stays, remove_server_lem}
use rzu.Auth.Invariant.Games.{same-IsConsistent}

-- The state once the new server's session knows it.
abbrev pub with_new_game : ℕ → ServerInfo → Option Bytes → ℕ → World → World
with_new_game s info guid now w = record (create_game s info guid now w) {
  links = record (constructed s w.next_address w.links) {
    game_of = update w.links.game_of s (some w.next_address);
  };
}

module _ (s : ℕ) (info : ServerInfo) (guid : Option Bytes) (now : ℕ) (w : World) (v : IsSound w)
    (free : w.links.game_of s ≡ none) where
  next_game_free : lookup w.next_address w.games ≡ none
  next_game_free = elim (Option-cases (lookup w.next_address w.games)) [
    | inl e ↦ e
    | inr (game, e) ↦ let late = v.game_fresh w.next_address (rw e tt) in absurd (omega arith)
  ]

  nobody_on_new : count (plays_on w.next_address) w.clients ≡ 0
  nobody_on_new =
      count-eq_zero (plays_on w.next_address) w.clients v.consistent.unique
        λ p c e. ground (arith, v.placed p, next_game_free)

  new_game-IsLinked : IsLinked (with_new_game s info guid now w).links
  unfolding create_game constructed
  new_game-IsLinked = record {
    game_end = λ x y e. ground (arith, v.linked.game_end x y, v.session_live y x, v.game_fresh y);
    session_end = λ x y e. ground (arith, v.linked.session_end x y);
  }

  pub new_game-IsSound : IsSound (with_new_game s info guid now w)
  unfolding create_game constructed
  new_game-IsSound = record {
    consistent = same-IsConsistent w _ refl refl refl (omega arith) v.consistent;
    counted = λ g. ground (
      arith,
      lookup-put w.next_address g (new_game info guid now) w.games,
      v.counted g,
      nobody_on_new,
    );
    placed = λ p.
        Placed-mono w.games _
          (λ g l. ground (arith, lookup-put w.next_address g (new_game info guid now) w.games)) _
          (v.placed p);
    unique_servers = IsUnique-put info.server_idx w.next_address w.servers v.unique_servers;
    tabled = λ i g e. ground (
      arith,
      lookup-put w.next_address g (new_game info guid now) w.games,
      lookup-put info.server_idx i w.next_address w.servers,
      v.tabled i g,
      next_game_free,
    );
    game_fresh = λ g l.
        ground
          (arith, lookup-put w.next_address g (new_game info guid now) w.games, v.game_fresh g);
    linked = new_game-IsLinked;
    session_live = λ g t e.
        ground
          (arith, lookup-put w.next_address g (new_game info guid now) w.games, v.session_live g t);
  }

-- Without the table entry of a server, and with the log of its end.
abbrev untabled : GameData → World → World
untabled game w = record w {
  servers = erase game.server_idx w.servers;
  sent =
      w.sent
      ++ send_log game_server_logout (server_numbers game.info) (server_texts game.info) ∷ [];
}

untabled-IsSound : (game : GameData) (w : World) → IsSound w → IsSound (untabled game w)
untabled-IsSound game w v = record {
  consistent = same-IsConsistent w _ refl refl refl (omega arith) v.consistent;
  counted = v.counted;
  placed = v.placed;
  unique_servers = IsUnique-erase game.server_idx w.servers v.unique_servers;
  tabled = λ j g e. v.tabled j g (ground (arith, lookup-erase game.server_idx j w.servers));
  game_fresh = v.game_fresh;
  linked = v.linked;
  session_live = v.session_live;
}

-- The end of `remove`, and the session's own end of the link.
abbrev deleted : ℕ → ℕ → World → World
deleted s g w = record w { games = erase g w.games; links = detached s g w.links }

module _ (s g : ℕ) (w : World) (v : IsSound w) (away : (p : ℕ) → IsAway g (lookup p w.clients))
    (gone : (i : ℕ) → lookup i w.servers ≡ some g → ⊥) (own : w.links.game_of s ≡ some g) where
  deleted-IsPlaced : (p : ℕ) → IsPlaced (erase g w.games) (lookup p w.clients)
  deleted-IsPlaced p = elim (Option-cases (lookup p w.clients)) [
    | inl e ↦ rw e tt
    | inr (c, e) ↦ rw e (held c.client c.server c.in_game (rw e at (v.placed p)) (rw e at (away p)))
  ]
    where
      held :
          (t h : Option ℕ) (b : Bool)
          → HeldBy w.games t h b
          → is_server g h ≡ false
          → HeldBy (erase g w.games) t h b
      held none none b k a = k
      held (some t) none b k a = k
      held none (some h) b k a = ground (arith, lookup-erase g h w.games)
      held (some t) (some h) b k a = k

  deleted-IsSound : IsSound (deleted s g w)
  unfolding detached
  deleted-IsSound = record {
    consistent = same-IsConsistent w _ refl refl refl (omega arith) v.consistent;
    counted = λ h. ground (arith, lookup-erase g h w.games, v.counted h);
    placed = deleted-IsPlaced;
    unique_servers = v.unique_servers;
    tabled = λ i h e. ground (arith, lookup-erase g h w.games, v.tabled i h, gone i);
    game_fresh = λ h l. ground (arith, lookup-erase g h w.games, v.game_fresh h);
    linked = detached-IsLinked s g w.links v.linked own;
    session_live = λ h t e. ground (arith, lookup-erase g h w.games, v.session_live h t);
  }

-- The players of the other servers, and those in authentication, stay.
pub Swept-IsOwned : (g : ℕ) (w w' : World) → IsSound w → Swept g w w' → IsOwned w → IsOwned w'
Swept-IsOwned g w w' v r o = record {
  points = λ t q e. elim (Option-cases (lookup q w.clients)) [
    | inl n ↦ absurd (ground (arith, o.points t q, r.client_sessions))
    | inr (c, n) ↦ ground (arith, o.points t q, r.client_sessions, r.stays q, v.placed q)
  ];
  holds = λ q t c e m. rw r.client_sessions (o.holds q t c (r.fewer q c e) m);
}

-- What a removed server leaves behind.
pub record Removed (g : ℕ) (w w' : World) : Type 0 where
  pub sound : IsSound w'
  pub owned : IsOwned w → IsOwned w'
  pub gone : lookup g w'.games ≡ none
  pub away : (p : ℕ) → IsAway g (lookup p w'.clients)
  pub stays : (p : ℕ) → Stays g (lookup p w.clients) (lookup p w'.clients)

module _ (s g : ℕ) (game : GameData) (w : World) (v : IsSound w) (e : lookup g w.games ≡ some game)
    (own : w.links.game_of s ≡ some g) where
  remove_game-gone :
      (swept : World)
      → Swept g (untabled game w) swept
      → (i : ℕ) → lookup i swept.servers ≡ some g
      → ⊥
  remove_game-gone swept r i h =
      ground (arith, r.servers, lookup-erase game.server_idx i w.servers, v.tabled i g)

  remove_game-Removed :
      (swept : World) → Swept g (untabled game w) swept → Removed g w (deleted s g swept)
  remove_game-Removed swept r = record {
    sound = deleted-IsSound s g swept r.sound r.away (remove_game-gone swept r) (rw r.links own);
    owned = Swept-IsOwned g (untabled game w) swept (untabled-IsSound game w v) r;
    gone = ground (arith, lookup-erase g g swept.games);
    away = r.away;
    stays = r.stays;
  }

  -- In a sound state a game server that leaves is removed to the end: the state is sound, the
  -- server is gone, no player is with it, every player that was not with it is unchanged, and the
  -- sessions' pointers stay valid if they were.
  pub remove_game_lem :
      Returns (Removed g w) (remove_game g w >>= λ w'. some (clear_game_data s w'))
  unfolding remove_game send detached
  remove_game_lem =
      rw (e, remove_game)
        (leaves (remove_server g (untabled game w))
          (remove_server_lem g (untabled game w) (untabled-IsSound game w v)))
    where
      leaves :
          (m : Option World)
          → Returns (Swept g (untabled game w)) m
          → Returns
              (Removed g w)
              ((m >>= λ swept. some (delete_game g swept)) >>= λ w'. some (clear_game_data s w'))
      leaves none h = h
      leaves (some swept) h = remove_game-Removed swept h
