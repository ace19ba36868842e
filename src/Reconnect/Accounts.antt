-- ===== src/Reconnect/Accounts.antt =====
-- The account list of AuthSession.cpp (rzgamereconnect) in packets.
use rzu.Prelude.{
  ℕ, zero, suc, ◌-◌, ◌≤◌, ◌<◌, ◌≡◌, ◌⊎◌, refl, sym, ◌∙◌, ap, true, false, List, [], ◌∷◌, ◌++◌,
  length, drop, take, length-take-le, length-drop, append-nil, arith, Bool-cases, inl, inr,
}
use rzu.Auth.State.{AccountInfo}
use rzu.Reconnect.State.{Message, login, account_list, client_login, client_logout, logout, other}
use rzu.Reconnect.AuthSession.{
  account_packets, packets_of, packet_count, max_count_per_packet, is_nil,
}

-- The accounts that the packets hold, one after another.
abbrev pub accounts_of : List Message → List AccountInfo
accounts_of [] = []
accounts_of (account_list f l ∷ rest) = l ++ accounts_of rest
accounts_of (login i g ∷ rest) = accounts_of rest
accounts_of (client_login n k ∷ rest) = accounts_of rest
accounts_of (client_logout n t ∷ rest) = accounts_of rest
accounts_of (logout ∷ rest) = accounts_of rest
accounts_of (other i b ∷ rest) = accounts_of rest

-- Account lists of at most so many accounts, and the last alone says that it is.
abbrev pub IsListing : ℕ → List Message → Type 0
IsListing n [] = ⊥
IsListing n (account_list true l ∷ rest) = (length l ≤ n) × (rest ≡ [])
IsListing n (account_list false l ∷ rest) = (length l ≤ n) × IsListing n rest
IsListing n (login i g ∷ rest) = ⊥
IsListing n (client_login k a ∷ rest) = ⊥
IsListing n (client_logout k t ∷ rest) = ⊥
IsListing n (logout ∷ rest) = ⊥
IsListing n (other i b ∷ rest) = ⊥

take-append-drop {ℓ} : {A : Type ℓ} (n : ℕ) (xs : List A) → take n xs ++ drop n xs ≡ xs
take-append-drop zero xs = refl
take-append-drop (suc n) [] = refl
take-append-drop (suc n) (x ∷ xs) = ap (λ ys. x ∷ ys) (take-append-drop n xs)

is_nil_lem : (l : List AccountInfo) → is_nil l ≡ true → l ≡ []
is_nil_lem [] e = refl
is_nil_lem (a ∷ l) e = cc

length-of_more : (l : List AccountInfo) → is_nil l ≡ false → 1 ≤ length l
length-of_more [] e = cc
length-of_more (a ∷ l) e = omega arith

whole {ℓ} : {A : Type ℓ} (n : ℕ) (xs : List A) → drop n xs ≡ [] → take n xs ≡ xs
whole n xs e =
    sym (append-nil (take n xs)) ∙ (ap (λ d. take n xs ++ d) (sym e) ∙ take-append-drop n xs)

fits_lem : (n k : ℕ) → (1 ≤ n) ⊎ (k ≡ 0) → 1 ≤ k - n → 1 ≤ n
fits_lem n k (inl h) r = h
fits_lem n k (inr e) r = absurd (omega arith)

-- With a round for each account and one more, and a packet that holds some.
account_packets_lem :
    (fuel n bound : ℕ) (accounts : List AccountInfo)
    → length accounts < fuel
    → (1 ≤ n) ⊎ (length accounts ≡ 0)
    → n ≤ bound
    → (accounts_of (account_packets fuel n accounts) ≡ accounts)
      × IsListing bound (account_packets fuel n accounts)
unfolding account_packets
account_packets_lem zero n bound accounts enough some_fit within = absurd (omega arith)
account_packets_lem (suc fuel) n bound accounts enough some_fit within =
    elim (Bool-cases (is_nil (drop n accounts))) [
      | inl last ↦
          rw (last, append-nil (take n accounts))
            (
              whole n accounts (is_nil_lem (drop n accounts) last),
              (omega (arith, length-take-le n accounts), refl),
            )
      | inr more ↦
          let left = length-of_more (drop n accounts) more in
          let dropped = length-drop n accounts in
          let some = fits_lem n (length accounts) some_fit (omega arith) in
          let rest =
            account_packets_lem fuel n bound (drop n accounts) (omega arith) (inl some) within in
          rw (more, rest.0)
            (take-append-drop n accounts, (omega (arith, length-take-le n accounts), rest.1))
    ]

-- The packets of an account list hold all the accounts, each once and in their order, with at
-- most 128 in each, and the last packet alone is final.
pub packets_of_complete :
    (accounts : List AccountInfo)
    → (accounts_of (packets_of accounts) ≡ accounts)
      × IsListing max_count_per_packet (packets_of accounts)
unfolding packets_of
packets_of_complete [] = account_packets_lem 1 0 128 [] (omega arith) (inr refl) (omega arith)
packets_of_complete (a ∷ rest) =
    account_packets_lem _ (packet_count (a ∷ rest)) 128 (a ∷ rest) (omega arith)
      (inl (ground arith)) (ground arith)
