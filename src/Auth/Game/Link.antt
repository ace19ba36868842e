-- ===== src/Auth/Game/Link.antt =====
-- `GameServerSession::setGameData` and `GameData::setGameServer`, which call one another.
use rzu.Prelude.{
  ℕ, zero, suc, ◌≡◌, Bool, true, false, Option, none, some, arith, ◌==◌, if◌then◌else◌, ◌>>=◌,
  Option-cases, inl, inr, ◌∙◌, ap,
}
use rzu.Auth.State.{Links, update}

abbrev same_pointer : Option ℕ → Option ℕ → Bool
same_pointer none none = true
same_pointer (some a) (some b) = a == b
same_pointer _ _ = false

-- A call through a pointer that may be null.
abbrev at_pointer : Option ℕ → (ℕ → Option Links) → Links → Option Links
at_pointer none f l = some l
at_pointer (some a) f l = f a

-- `none`: the calls nest deeper than the fuel.
unfoldable mutual
  pub set_game_data : ℕ → ℕ → Option ℕ → Links → Option Links
  set_game_data zero s g l = none
  set_game_data (suc fuel) s g l = elim (same_pointer (l.game_of s) g) [
    | true ↦ some l
    | false ↦
        at_pointer (l.game_of s)
          (λ old. set_game_server fuel old none (record l { game_of = update l.game_of s g }))
          (record l { game_of = update l.game_of s g })
        >>= λ l'. at_pointer g (λ new. set_game_server fuel new (some s) l') l'
  ]

  pub set_game_server : ℕ → ℕ → Option ℕ → Links → Option Links
  set_game_server zero g s l = none
  set_game_server (suc fuel) g s l = elim (same_pointer (l.session_of g) s) [
    | true ↦ some l
    | false ↦
        at_pointer (l.session_of g)
          (λ old. set_game_data fuel old none (record l { session_of = update l.session_of g s }))
          (record l { session_of = update l.session_of g s })
        >>= λ l'. at_pointer s (λ new. set_game_data fuel new (some g) l') l'
  ]

-- The depth of the calls below.
abbrev pub nesting : ℕ
nesting = 7

-- Each end of a link points back.
pub record IsLinked (l : Links) : Type 0 where
  pub game_end : (s g : ℕ) → l.game_of s ≡ some g → l.session_of g ≡ some s
  pub session_end : (s g : ℕ) → l.session_of g ≡ some s → l.game_of s ≡ some g

-- The links once `s` has `g`, and the session that had `g` has nothing.
unfoldable pub attached : ℕ → ℕ → Links → Links
attached s g l = record {
  game_of = λ x.
      if x == s
      then some g
      else if same_pointer (l.session_of g) (some x)
      then none
      else l.game_of x;
  session_of = update l.session_of g (some s);
}

pub attached-IsLinked :
    (s g : ℕ) (l : Links) → IsLinked l → l.game_of s ≡ none → IsLinked (attached s g l)
unfolding attached
attached-IsLinked s g l h free = record {
  game_end = λ x y e. ground (arith, h.game_end x y, h.session_end x y);
  session_end = λ x y e. ground (arith, h.game_end x y, h.session_end x y, h.session_end x g);
}

abbrev take_over_links : ℕ → ℕ → ℕ → Links → Links
take_over_links s g t l = record {
  game_of = update (update (update (update l.game_of s (some g)) t none) s none) s (some g);
  session_of = update (update (update l.session_of g (some s)) g none) g (some s);
}

take_over :
    (s g t : ℕ) (l : Links)
    → l.game_of s ≡ none
    → l.session_of g ≡ some t
    → l.game_of t ≡ some g
    → set_game_data nesting s (some g) l ≡ some (take_over_links s g t l)
unfolding set_game_data
take_over s g t l hs hg ht = ground arith

take_over_game_of :
    (s g t : ℕ) (l : Links) (x : ℕ)
    → l.session_of g ≡ some t
    → (take_over_links s g t l).game_of x ≡ (attached s g l).game_of x
unfolding attached
take_over_game_of s g t l x e = ground arith

take_over_session_of :
    (s g t : ℕ) (l : Links) (x : ℕ)
    → (take_over_links s g t l).session_of x ≡ (attached s g l).session_of x
unfolding attached
take_over_session_of s g t l x = ground arith

take_over-eq-attached :
    (s g t : ℕ) (l : Links) → l.session_of g ≡ some t → take_over_links s g t l ≡ attached s g l
take_over-eq-attached s g t l e = λ i. record {
  game_of = λ x. take_over_game_of s g t l x e i;
  session_of = λ x. take_over_session_of s g t l x i;
}

abbrev first_links : ℕ → ℕ → Links → Links
first_links s g l = record {
  game_of = update l.game_of s (some g);
  session_of = update l.session_of g (some s);
}

first :
    (s g : ℕ) (l : Links)
    → l.game_of s ≡ none
    → l.session_of g ≡ none
    → set_game_data nesting s (some g) l ≡ some (first_links s g l)
unfolding set_game_data
first s g l hs hg = ground arith

first_game_of :
    (s g : ℕ) (l : Links) (x : ℕ)
    → l.session_of g ≡ none
    → (first_links s g l).game_of x ≡ (attached s g l).game_of x
unfolding attached
first_game_of s g l x e = ground arith

-- With consistent links, the calls that the two setters make of one another end when a session
-- without a game server takes one over, and exactly the new pair is linked, whichever session had
-- the server before.
pub set_game_data_attach :
    (s g : ℕ) (l : Links)
    → IsLinked l
    → l.game_of s ≡ none
    → set_game_data nesting s (some g) l ≡ some (attached s g l)
unfolding attached
set_game_data_attach s g l h free = elim (Option-cases (l.session_of g)) [
  | inl e ↦
      first s g l free e
      ∙ ap some (λ i. record {
        game_of = λ x. first_game_of s g l x e i;
        session_of = (attached s g l).session_of;
      })
  | inr (t, e) ↦
      take_over s g t l free e (h.session_end t g e) ∙ ap some (take_over-eq-attached s g t l e)
]

-- `setGameData(nullptr)`: the session and its game server forget one another.
unfoldable pub detached : ℕ → ℕ → Links → Links
detached s g l = record {
  game_of = update l.game_of s none;
  session_of = update l.session_of g none;
}

-- With consistent links, the calls that the two setters make of one another end when a session
-- gives its game server up, and only this pair is no longer linked.
pub set_game_data_detach :
    (s g : ℕ) (l : Links)
    → IsLinked l
    → l.game_of s ≡ some g
    → set_game_data nesting s none l ≡ some (detached s g l)
unfolding set_game_data detached
set_game_data_detach s g l h e = ground (arith, h.game_end s g)

pub detached-IsLinked :
    (s g : ℕ) (l : Links) → IsLinked l → l.game_of s ≡ some g → IsLinked (detached s g l)
unfolding detached
detached-IsLinked s g l h e = record {
  game_end = λ x y p. ground (arith, h.game_end x y, h.game_end x g, h.game_end s g);
  session_end = λ x y p. ground (arith, h.session_end x y, h.session_end s y);
}

-- The constructor of GameData writes its own end.
unfoldable pub constructed : ℕ → ℕ → Links → Links
constructed s g l = record l { session_of = update l.session_of g (some s) }

-- `setGameData` after the constructor only adds the session's end.
pub set_game_data-constructed :
    (s g : ℕ) (l : Links)
    → l.game_of s ≡ none
    → set_game_data nesting s (some g) (constructed s g l)
      ≡ some (record (constructed s g l) { game_of = update l.game_of s (some g) })
unfolding set_game_data constructed
set_game_data-constructed s g l h = ground arith
