-- ===== src/Manager/Lookup.antt =====
-- The map of the clients: lookups after each change, and the invariant that ties clients to
-- descriptors.
use correct_gps.Base.{
  ℕ, ◌≡◌, refl, true, false, List, [], ◌∷◌, none, some, arith, contains, without,
  contains-without_other,
}
use correct_gps.Client.{Client}
use correct_gps.Manager.{ClientMap, find_client, erase_client, put_client}

module _ {D : Type 0} where
  -- Each client has its key as its descriptor, which is open, and no two have the same.
  abbrev pub Managed : List ℕ → ClientMap D → Type 0
  Managed open_fds [] = Unit
  Managed open_fds ((k, c) ∷ q) =
      (c.fd ≡ k) × (contains open_fds k ≡ true) × (find_client k q ≡ none) × Managed open_fds q

  pub find-erase_same : (fd : ℕ) (q : ClientMap D) → find_client fd (erase_client fd q) ≡ none
  unfolding find_client erase_client
  find-erase_same fd [] = refl
  find-erase_same fd ((k, c) ∷ q) = ground (arith, find-erase_same fd q)

  pub find-erase :
      (fd k : ℕ) (q : ClientMap D)
      → find_client k q ≡ none
      → find_client k (erase_client fd q) ≡ none
  unfolding find_client erase_client
  find-erase fd k [] h = refl
  find-erase fd k ((j, c) ∷ q) h = ground (arith, find-erase fd k q)

  pub find-put_none :
      (fd k : ℕ) (c : Client D) (q : ClientMap D)
      → find_client k q ≡ none
      → find_client k (put_client fd c q) ≡ none
  unfolding find_client put_client
  find-put_none fd k c [] h = refl
  find-put_none fd k c ((j, b) ∷ q) h = ground (arith, find-put_none fd k c q)

  pub Managed-find :
      (open_fds : List ℕ) (fd : ℕ) (c : Client D) (q : ClientMap D)
      → Managed open_fds q
      → find_client fd q ≡ some c
      → (c.fd ≡ fd) × (contains open_fds fd ≡ true)
  unfolding find_client
  Managed-find open_fds fd c [] m h = ground arith
  Managed-find open_fds fd c ((k, b) ∷ q) (e, o, u, m) h =
      ground (arith, Managed-find open_fds fd c q m)

  -- A descriptor that is not open has no client.
  pub Managed-new :
      (open_fds : List ℕ) (fd : ℕ) (q : ClientMap D)
      → Managed open_fds q
      → contains open_fds fd ≡ false
      → find_client fd q ≡ none
  unfolding find_client
  Managed-new open_fds fd [] m h = refl
  Managed-new open_fds fd ((k, b) ∷ q) (e, o, u, m) h =
      ground (arith, Managed-new open_fds fd q m h)

  pub Managed-put :
      (open_fds : List ℕ) (fd : ℕ) (c : Client D) (q : ClientMap D)
      → c.fd ≡ fd
      → Managed open_fds q
      → Managed open_fds (put_client fd c q)
  unfolding put_client
  Managed-put open_fds fd c [] e m = tt
  Managed-put open_fds fd c ((k, b) ∷ q) e (same, o, u, m) =
      ground (arith, Managed-put open_fds fd c q e m, find-put_none fd k c q u)

  pub Managed-erase :
      (open_fds : List ℕ) (fd : ℕ) (q : ClientMap D)
      → Managed open_fds q
      → Managed (without fd open_fds) (erase_client fd q)
  unfolding erase_client
  Managed-erase open_fds fd [] m = tt
  Managed-erase open_fds fd ((k, b) ∷ q) (e, o, u, m) = ground (
    arith,
    Managed-erase open_fds fd q m,
    find-erase fd k q u,
    contains-without_other fd k open_fds,
  )

  -- More open descriptors do no harm.
  pub Managed-more :
      (open_fds fds : List ℕ) (q : ClientMap D)
      → ((k : ℕ) → contains open_fds k ≡ true → contains fds k ≡ true)
      → Managed open_fds q
      → Managed fds q
  Managed-more open_fds fds [] h m = tt
  Managed-more open_fds fds ((k, c) ∷ q) h (e, o, u, m) =
      (e, h k o, u, Managed-more open_fds fds q h m)
