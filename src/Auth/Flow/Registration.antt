-- ===== src/Auth/Flow/Registration.antt =====
-- Players that come and go in the registry of rzauth/src/AuthServer/ClientData.cpp.
use rzu.Prelude.{ℕ, ◌+◌, ◌≡◌, refl, none, some, [], ◌∷◌, Bytes, arith, Option-cases, inl, inr}
use rzu.Prelude.Keyed.{
  Map, Key, lookup, erase, put, erase-eq_self, lookup-put, lookup-erase, number_key, bytes_key,
}
use rzu.Auth.State.{World}
use rzu.Auth.Client.Registry.{
  NewClient, new_client, register, added, refused, try_add_client, remove_client,
  remove_client_by_id, unregister, forget, to_lower,
}
use rzu.Auth.Client.Moves.{get_client}
use rzu.Auth.Client.Consistency.{IsConsistent, next_address_free}

erase-erase :
    {K V : Type 0} → ⦃key : Key K⦄ → (k : K) (m : Map K V) → erase k (erase k m) ≡ erase k m
erase-erase k m = erase-eq_self k (erase k m) (ground (arith, lookup-erase k k m))

erase-put :
    {K V : Type 0}
    → ⦃key : Key K⦄ → (k : K) (v : V) (m : Map K V) → lookup k m ≡ none
    → erase k (put k v m) ≡ m
unfolding erase put
erase-put k v m h = ground (arith, erase-erase k m, erase-eq_self k m h)

forget-register :
    (n : NewClient) (w : World)
    → IsConsistent w
    → lookup n.account_id w.connected_clients ≡ none
    → lookup (to_lower n.account) w.connected_clients_by_name ≡ none
    → forget w.next_address (new_client n) (register n w)
      ≡ record w { next_address = w.next_address + 1 }
unfolding forget register
forget-register n w v i m =
    rw
      (
        erase-put w.next_address (new_client n) w.clients (next_address_free w v),
        erase-put n.account_id w.next_address w.connected_clients i,
        erase-put (to_lower n.account) w.next_address w.connected_clients_by_name m,
      )
      refl

removed :
    (n : NewClient) (w : World)
    → remove_client w.next_address (register n w)
      ≡ some (forget w.next_address (new_client n) (register n w))
unfolding remove_client remove_client_by_id unregister register
removed n w = ground (
  arith,
  lookup-put w.next_address w.next_address (new_client n) w.clients,
  lookup-put n.account_id n.account_id w.next_address w.connected_clients,
)

-- With a consistent registry, a player that was added and is then removed leaves the state as it
-- was, but for its address, which is used up.
pub remove_client-try_add_client :
    (n : NewClient) (p : ℕ) (w w' : World)
    → IsConsistent w
    → try_add_client n w ≡ added p w'
    → remove_client p w' ≡ some (record w { next_address = w.next_address + 1 })
unfolding try_add_client
remove_client-try_add_client n p w w' v e =
    elim (Option-cases (lookup n.account_id w.connected_clients)) [
      | inr (old, i) ↦ absurd (ground arith)
      | inl i ↦ elim (Option-cases (lookup (to_lower n.account) w.connected_clients_by_name)) [
        | inr (old, m) ↦ absurd (ground arith)
        | inl m ↦ ground (arith, removed n w, forget-register n w v i m)
      ]
    ]

-- Lower case is final.
pub to_lower_idem : (text : Bytes) → to_lower (to_lower text) ≡ to_lower text
unfolding to_lower
to_lower_idem [] = refl
to_lower_idem (c ∷ rest) = ground (arith, to_lower_idem rest)

-- With a consistent registry, once a player is added, another with an unused id whose name is the
-- same but for case is refused and told that player, which the name then finds.
pub try_add_client-taken :
    (n m : NewClient) (p : ℕ) (w w' : World)
    → IsConsistent w
    → try_add_client n w ≡ added p w'
    → to_lower m.account ≡ to_lower n.account
    → lookup m.account_id w.connected_clients ≡ none
    → (try_add_client m w' ≡ refused p) × (get_client m.account w' ≡ some p)
unfolding try_add_client register get_client
try_add_client-taken n m p w w' v e same free =
    elim (Option-cases (lookup n.account_id w.connected_clients)) [
      | inr (old, i) ↦ absurd (ground arith)
      | inl i ↦ elim (Option-cases (lookup (to_lower n.account) w.connected_clients_by_name)) [
        | inr (old, k) ↦ absurd (ground arith)
        | inl k ↦ (
          ground (
            arith,
            lookup-put n.account_id m.account_id w.next_address w.connected_clients,
            lookup-put (to_lower n.account) (to_lower m.account) w.next_address
                w.connected_clients_by_name,
          ),
          ground (
            arith,
            lookup-put (to_lower n.account) (to_lower m.account) w.next_address
                w.connected_clients_by_name,
          ),
        )
      ]
    ]
