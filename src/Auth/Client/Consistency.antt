-- ===== src/Auth/Client/Consistency.antt =====
-- The two maps of rzauth/src/AuthServer/ClientData.cpp and the live objects agree.
use rzu.Prelude.{ℕ, ◌<◌, ◌≡◌, Option, none, some, Bytes, arith, Option-cases, inl, inr}
use rzu.Prelude.Keyed.{
  lookup, erase, adjust, IsUnique, lookup-erase, lookup-put, lookup-adjust, IsUnique-erase,
  IsUnique-put, IsUnique-adjust, number_key, bytes_key,
}
use rzu.Auth.State.{ClientData, World}
use rzu.Auth.Client.Registry.{NewClient, new_client, register, to_lower}

-- A pointer read gives a live player with this id, or with this name.
abbrev pub HasId : ℕ → Option ClientData → Type 0
HasId k none = ⊥
HasId k (some c) = c.account_id ≡ k

abbrev pub HasName : Bytes → Option ClientData → Type 0
HasName n none = ⊥
HasName n (some c) = to_lower c.account ≡ n

-- Each map entry leads to a live player with that key, and each live player is in both maps.
pub record IsConsistent (w : World) : Type 0 where
  pub unique : IsUnique w.clients
  pub unique_ids : IsUnique w.connected_clients
  pub fresh : (p : ℕ) (c : ClientData) → lookup p w.clients ≡ some c → p < w.next_address
  pub by_id : (k p : ℕ) → lookup k w.connected_clients ≡ some p → HasId k (lookup p w.clients)
  pub by_name :
      (n : Bytes) (p : ℕ)
      → lookup n w.connected_clients_by_name ≡ some p
      → HasName n (lookup p w.clients)
  pub listed :
      (p : ℕ) (c : ClientData)
      → lookup p w.clients ≡ some c
      → (lookup c.account_id w.connected_clients ≡ some p)
        × (lookup (to_lower c.account) w.connected_clients_by_name ≡ some p)

pub next_address_free : (w : World) → IsConsistent w → lookup w.next_address w.clients ≡ none
next_address_free w v = elim (Option-cases (lookup w.next_address w.clients)) [
  | inl e ↦ e
  | inr (c, e) ↦ let late = v.fresh w.next_address c e in absurd (omega arith)
]

pub register-IsConsistent :
    (n : NewClient) (w : World)
    → IsConsistent w
    → lookup n.account_id w.connected_clients ≡ none
    → lookup (to_lower n.account) w.connected_clients_by_name ≡ none
    → IsConsistent (register n w)
unfolding register
register-IsConsistent n w v free_id free_name = record {
  unique = IsUnique-put _ _ w.clients v.unique;
  unique_ids = IsUnique-put _ _ w.connected_clients v.unique_ids;
  fresh =
      λ p c e. ground (arith, lookup-put w.next_address p (new_client n) w.clients, v.fresh p c);
  by_id = λ k p e. ground (
    arith,
    lookup-put n.account_id k w.next_address w.connected_clients,
    lookup-put w.next_address p (new_client n) w.clients,
    v.by_id k p,
    next_address_free w v,
  );
  by_name = λ k p e. ground (
    arith,
    lookup-put (to_lower n.account) k w.next_address w.connected_clients_by_name,
    lookup-put w.next_address p (new_client n) w.clients,
    v.by_name k p,
    next_address_free w v,
  );
  listed = λ p c e. ground (
    arith,
    lookup-put n.account_id c.account_id w.next_address w.connected_clients,
    lookup-put (to_lower n.account) (to_lower c.account) w.next_address w.connected_clients_by_name,
    lookup-put w.next_address p (new_client n) w.clients,
    v.listed p c,
  );
}

-- What `forget` makes of the maps.
abbrev pub without : ℕ → ClientData → World → World
without p c w = record w {
  clients = erase p w.clients;
  connected_clients = erase c.account_id w.connected_clients;
  connected_clients_by_name = erase (to_lower c.account) w.connected_clients_by_name;
}

module _ (p : ℕ) (c : ClientData) (w : World) (v : IsConsistent w)
    (e : lookup p w.clients ≡ some c) where
  without-by_id :
      (k q : ℕ)
      → lookup k (erase c.account_id w.connected_clients) ≡ some q
      → HasId k (lookup q (erase p w.clients))
  without-by_id k q h = ground (
    arith,
    lookup-erase c.account_id k w.connected_clients,
    lookup-erase p q w.clients,
    v.by_id k q,
  )

  without-by_name :
      (k : Bytes) (q : ℕ)
      → lookup k (erase (to_lower c.account) w.connected_clients_by_name) ≡ some q
      → HasName k (lookup q (erase p w.clients))
  without-by_name k q h = ground (
    arith,
    lookup-erase (to_lower c.account) k w.connected_clients_by_name,
    lookup-erase p q w.clients,
    v.by_name k q,
  )

  without-listed :
      (q : ℕ) (d : ClientData)
      → lookup q (erase p w.clients) ≡ some d
      → (lookup d.account_id (erase c.account_id w.connected_clients) ≡ some q)
        × (lookup (to_lower d.account) (erase (to_lower c.account) w.connected_clients_by_name)
            ≡ some q)
  without-listed q d h = ground (
    arith,
    lookup-erase c.account_id d.account_id w.connected_clients,
    lookup-erase (to_lower c.account) (to_lower d.account) w.connected_clients_by_name,
    lookup-erase p q w.clients,
    v.listed q d,
    v.listed p c e,
  )

  pub without-IsConsistent : IsConsistent (without p c w)
  without-IsConsistent = record {
    unique = IsUnique-erase p w.clients v.unique;
    unique_ids = IsUnique-erase c.account_id w.connected_clients v.unique_ids;
    fresh = λ q d h. ground (arith, lookup-erase p q w.clients, v.fresh q d);
    by_id = without-by_id;
    by_name = without-by_name;
    listed = without-listed;
  }

-- A write that leaves a player's name and id alone.
module _ (p : ℕ) (f : ClientData → ClientData) (w : World) (v : IsConsistent w)
    (account : (c : ClientData) → (f c).account ≡ c.account)
    (account_id : (c : ClientData) → (f c).account_id ≡ c.account_id) where
  adjust-by_id :
      (k q : ℕ) → lookup k w.connected_clients ≡ some q → HasId k (lookup q (adjust p f w.clients))
  adjust-by_id k q h = elim (Option-cases (lookup q w.clients)) [
    | inl e ↦ absurd (ground (arith, v.by_id k q h))
    | inr (c, e) ↦ ground (arith, lookup-adjust p q f w.clients, v.by_id k q h, account_id c)
  ]

  adjust-by_name :
      (k : Bytes) (q : ℕ)
      → lookup k w.connected_clients_by_name ≡ some q
      → HasName k (lookup q (adjust p f w.clients))
  adjust-by_name k q h = elim (Option-cases (lookup q w.clients)) [
    | inl e ↦ absurd (ground (arith, v.by_name k q h))
    | inr (c, e) ↦ ground (arith, lookup-adjust p q f w.clients, v.by_name k q h, account c)
  ]

  pub adjust-IsConsistent : IsConsistent (record w { clients = adjust p f w.clients })
  adjust-IsConsistent = record {
    unique = IsUnique-adjust p f w.clients v.unique;
    unique_ids = v.unique_ids;
    fresh = λ q d h. elim (Option-cases (lookup q w.clients)) [
      | inl e ↦ absurd (ground (arith, lookup-adjust p q f w.clients))
      | inr (c, e) ↦ v.fresh q c e
    ];
    by_id = adjust-by_id;
    by_name = adjust-by_name;
    listed = λ q d h. elim (Option-cases (lookup q w.clients)) [
      | inl e ↦ absurd (ground (arith, lookup-adjust p q f w.clients))
      | inr (c, e) ↦
          ground (arith, lookup-adjust p q f w.clients, v.listed q c e, account c, account_id c)
    ];
  }
