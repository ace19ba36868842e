-- ===== src/Auth/Flow/ServerList.antt =====
-- The server list of `onServerList` (rzauth/src/AuthServer/ClientSession.cpp).
use rzu.Prelude.{
  ℕ, ◌≤◌, ◌≡◌, ◌≢◌, refl, true, false, ◌⊎◌, inl, inr, ◌↔◌, Returns, Option-cases, Bool-cases, sym,
  ap, ◌∙◌, none, some, List, [], ◌∷◌, arith, if◌then◌else◌, ◌==◌,
}
use mathlib.Core.Path.{subst}
use rzu.Prelude.Keyed.{Map, lookup, IsUnique, AllEntries, AllEntries-of_lookup, number_key}
use rzu.Auth.State.{GameData, ServerRow, World}
use rzu.Auth.Session.Handlers.{list_servers, is_listed, server_row, user_ratio}
use rzu.Auth.Invariant.Defs.{IsSound, HasIndex}

-- The live game servers of some entries, in their order.
abbrev pub live_games : Map ℕ ℕ → World → List (ℕ × GameData)
live_games [] w = []
live_games ((i, g) ∷ rest) w = elim (lookup g w.games) [
  | none ↦ live_games rest w
  | some game ↦ (g, game) ∷ live_games rest w
]

abbrev pub rows_of : ℕ → ℕ → List (ℕ × GameData) → World → List ServerRow
rows_of limit max_players [] w = []
rows_of limit max_players ((g, game) ∷ rest) w =
    if is_listed limit g game w
    then server_row max_players game ∷ rows_of limit max_players rest w
    else rows_of limit max_players rest w

list_servers-rows :
    (limit max_players : ℕ) (entries : Map ℕ ℕ) (w : World)
    → (max_players == 0) ≡ false
    → AllEntries (λ i g. HasIndex i (lookup g w.games)) entries
    → list_servers limit max_players entries w
      ≡ some (rows_of limit max_players (live_games entries w) w)
unfolding list_servers
list_servers-rows limit max_players [] w n h = refl
list_servers-rows limit max_players ((i, g) ∷ rest) w n h =
    ground (arith, h.0, list_servers-rows limit max_players rest w n h.1)

-- A row among others.
abbrev pub IsIn : ServerRow → List ServerRow → Type 0
IsIn row [] = ⊥
IsIn row (r ∷ rest) = (r ≡ row) ⊎ IsIn row rest

-- A row of a server that the client may see: the table has it under its index, it is live, it is not above
-- the limit, its session is there and it is ready.
pub record IsRowOf (limit max_players : ℕ) (table : Map ℕ ℕ) (w : World) (row : ServerRow)
    : Type 0 where
  pub address : ℕ
  pub game : GameData
  pub tabled : lookup game.server_idx table ≡ some address
  pub live : lookup address w.games ≡ some game
  pub visible : game.server_idx ≤ limit
  pub reachable : w.links.session_of address ≢ none
  pub ready : game.ready ≡ true
  pub info : row.info ≡ game.info
  pub ratio : row.user_ratio ≡ user_ratio game.player_count max_players

row_eq : (a b : ServerRow) → a.info ≡ b.info → a.user_ratio ≡ b.user_ratio → a ≡ b
row_eq a b e f = ground arith

module _ (limit max_players : ℕ) (w : World) (row : ServerRow) where
  abbrev rows : Map ℕ ℕ → List ServerRow
  rows table = rows_of limit max_players (live_games table w) w

  shown :
      (g : ℕ) (game : GameData)
      → is_listed limit g game w ≡ true
      → (game.server_idx ≤ limit) × (w.links.session_of g ≢ none) × (game.ready ≡ true)
  unfolding is_listed
  shown g game b = (ground arith, ground arith, ground arith)

  listed :
      (g : ℕ) (game : GameData)
      → game.server_idx ≤ limit
      → w.links.session_of g ≢ none
      → game.ready ≡ true
      → is_listed limit g game w ≡ true
  unfolding is_listed
  listed g game v n r = ground arith

  widened :
      (i g : ℕ) (rest : Map ℕ ℕ)
      → lookup i rest ≡ none
      → IsRowOf limit max_players rest w row
      → IsRowOf limit max_players ((i, g) ∷ rest) w row
  unfolding lookup
  widened i g rest u r = record {
    address = r.address;
    game = r.game;
    tabled = ground (arith, u, r.tabled);
    live = r.live;
    visible = r.visible;
    reachable = r.reachable;
    ready = r.ready;
    info = r.info;
    ratio = r.ratio;
  }

  head-IsRowOf :
      (i g : ℕ) (game : GameData) (rest : Map ℕ ℕ)
      → lookup g w.games ≡ some game
      → game.server_idx ≡ i
      → is_listed limit g game w ≡ true
      → server_row max_players game ≡ row
      → IsRowOf limit max_players ((i, g) ∷ rest) w row
  unfolding lookup server_row
  head-IsRowOf i g game rest e n b q =
      let facts = shown g game b in
      record {
        address = g;
        game = game;
        tabled = ground (arith, n);
        live = e;
        visible = facts.0;
        reachable = facts.1;
        ready = facts.2;
        info = ap (λ (r : ServerRow). r.info) (sym q);
        ratio = ap (λ (r : ServerRow). r.user_ratio) (sym q);
      }

  rows_shown :
      (i g : ℕ) (game : GameData) (rest : Map ℕ ℕ)
      → lookup g w.games ≡ some game
      → is_listed limit g game w ≡ true
      → rows ((i, g) ∷ rest) ≡ server_row max_players game ∷ rows rest
  rows_shown i g game rest e b = ground arith

  rows_hidden :
      (i g : ℕ) (game : GameData) (rest : Map ℕ ℕ)
      → lookup g w.games ≡ some game
      → is_listed limit g game w ≡ false
      → rows ((i, g) ∷ rest) ≡ rows rest
  rows_hidden i g game rest e b = ground arith

  rows-IsRowOf :
      (table : Map ℕ ℕ)
      → IsUnique table
      → AllEntries (λ i g. HasIndex i (lookup g w.games)) table
      → IsIn row (rows table)
      → IsRowOf limit max_players table w row
  rows-IsRowOf [] u h m = absurd m
  rows-IsRowOf ((i, g) ∷ rest) u h m = elim (Option-cases (lookup g w.games)) [
    | inl e ↦ absurd (rw e at h.0)
    | inr (game, e) ↦ elim (Bool-cases (is_listed limit g game w)) [
      | inl b ↦ elim (subst (IsIn row) (rows_shown i g game rest e b) m) [
        | inl q ↦ head-IsRowOf i g game rest e (rw e at h.0) b q
        | inr t ↦ widened i g rest u.0 (rows-IsRowOf rest u.1 h.1 t)
      ]
      | inr b ↦
          widened i g rest u.0
            (rows-IsRowOf rest u.1 h.1 (subst (IsIn row) (rows_hidden i g game rest e b) m))
    ]
  ]

  later :
      (i g : ℕ) (rest : Map ℕ ℕ)
      → HasIndex i (lookup g w.games)
      → IsIn row (rows rest)
      → IsIn row (rows ((i, g) ∷ rest))
  later i g rest h m = elim (Option-cases (lookup g w.games)) [
    | inl e ↦ absurd (rw e at h)
    | inr (game, e) ↦ elim (Bool-cases (is_listed limit g game w)) [
      | inl b ↦ subst (IsIn row) (sym (rows_shown i g game rest e b)) (inr m)
      | inr b ↦ subst (IsIn row) (sym (rows_hidden i g game rest e b)) m
    ]
  ]

  IsRowOf-rows :
      (table : Map ℕ ℕ)
      → AllEntries (λ i g. HasIndex i (lookup g w.games)) table
      → IsRowOf limit max_players table w row
      → IsIn row (rows table)
  unfolding lookup server_row
  IsRowOf-rows [] h r = absurd (ground (arith, r.tabled))
  IsRowOf-rows ((i, g) ∷ rest) h r = elim (Bool-cases (i == r.game.server_idx)) [
    | inl here ↦
        let same : g ≡ r.address = ground (arith, here, r.tabled) in
        let e : lookup g w.games ≡ some r.game = ap (λ a. lookup a w.games) same ∙ r.live in
        let b = listed g r.game r.visible (rw same r.reachable) r.ready in
        subst (IsIn row) (sym (rows_shown i g r.game rest e b))
          (inl (row_eq (server_row max_players r.game) row (sym r.info) (sym r.ratio)))
    | inr there ↦ later i g rest h.0 (
        IsRowOf-rows rest h.1 (record {
          address = r.address;
          game = r.game;
          tabled = ground (arith, there, r.tabled);
          live = r.live;
          visible = r.visible;
          reachable = r.reachable;
          ready = r.ready;
          info = r.info;
          ratio = r.ratio;
        }))
  ]

-- In a sound state and with players allowed, the server list is made, and it holds a row exactly
-- if the row is that of a live server that the table has under its index, that is not above the
-- client's limit, whose session is there and which is ready: its information, and its load.
pub list_servers_complete :
    (limit max_players : ℕ) (w : World) (row : ServerRow)
    → max_players ≢ 0
    → IsSound w
    → Returns
        (λ rows. IsIn row rows ↔ IsRowOf limit max_players w.servers w row)
        (list_servers limit max_players w.servers w)
list_servers_complete limit max_players w row n v =
    let entries = AllEntries-of_lookup _ w.servers v.unique_servers v.tabled in
    rw (list_servers-rows limit max_players w.servers w (ground arith) entries) (
      rows-IsRowOf limit max_players w row w.servers v.unique_servers entries,
      IsRowOf-rows limit max_players w row w.servers entries,
    )

-- The load of a server that a client is shown is at most 100, also where the product of the count
-- wraps.
pub user_ratio-le : (players max_players : ℕ) → user_ratio players max_players ≤ 100
unfolding user_ratio
user_ratio-le players max_players = ground arith
