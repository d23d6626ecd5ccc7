-- ===== src/Manager/Connections.antt =====
-- What happens to the connections: accepted, and refused.
use correct_gps.Base.{
  ℕ, ◌≤◌, ◌<◌, ◌≡◌, true, false, ◌∷◌, none, some, ◌==◌, arith, ok, length, contains,
}
use correct_gps.Client.{Client, ini, Received}
use correct_gps.Manager.{
  Manager, ClientMap, find_client, get_new_client, add_to_queue, do_kill, do_read,
}
use correct_gps.Manager.Steps.{accept}
use correct_gps.Manager.Lookup.{Managed-new}
use correct_gps.Manager.Invariant.{IsManaged, do_kill-missing, do_read-missing}

module _ {D : Type 0} where
  pub accept_room :
      (max_clients now fd : ℕ) (raw : Client D) (m : Manager D)
      → find_client fd m.clientqueue ≡ none
      → length m.clientqueue < max_clients
      → accept max_clients raw now m fd ≡ record m {
        clientqueue = (fd, ini raw fd now) ∷ m.clientqueue;
        open_fds = fd ∷ m.open_fds;
      }
  unfolding add_to_queue get_new_client
  accept_room max_clients now fd raw m missing room = ground arith

  accept_full :
      (max_clients now fd : ℕ) (raw : Client D) (m : Manager D)
      → max_clients ≤ length m.clientqueue
      → accept max_clients raw now m fd ≡ record m { open_fds = fd ∷ m.open_fds }
  unfolding add_to_queue get_new_client
  accept_full max_clients now fd raw m full = ground arith

  pub find-first :
      (fd k : ℕ) (c : Client D) (q : ClientMap D)
      → (find_client fd ((fd, c) ∷ q) ≡ some c)
        × ((k == fd) ≡ false → find_client k ((fd, c) ∷ q) ≡ find_client k q)
  unfolding find_client
  find-first fd k c q = ground arith

  -- Where clients and descriptors belong together and there is room, a connection that is accepted
  -- gets a client of its own in its first state, its descriptor is open, and every other client
  -- stays: the branch of AddToQueue that replaces a client is not taken.
  pub accept-adds :
      (max_clients now fd : ℕ) (raw : Client D) (m : Manager D)
      → IsManaged m
      → contains m.open_fds fd ≡ false
      → length m.clientqueue < max_clients
      → let n = accept max_clients raw now m fd in
        (find_client fd n.clientqueue ≡ some (ini raw fd now))
        × (contains n.open_fds fd ≡ true)
        × ((k : ℕ) → (k == fd) ≡ false → find_client k n.clientqueue ≡ find_client k m.clientqueue)
  accept-adds max_clients now fd raw m h new room =
      rw (accept_room max_clients now fd raw m (Managed-new m.open_fds fd m.clientqueue h new) room)
        (
          (find-first fd fd (ini raw fd now) m.clientqueue).0,
          ground arith,
          λ k other. (find-first fd k (ini raw fd now) m.clientqueue).1 other,
        )

  -- With as many clients as there may be, where clients and descriptors belong together, a
  -- connection that is accepted gets no client, and its descriptor stays open: neither to read from
  -- it nor to kill it changes anything.
  pub accept_full-leaks :
      (max_clients now fd : ℕ) (raw : Client D) (m : Manager D)
      → IsManaged m
      → contains m.open_fds fd ≡ false
      → max_clients ≤ length m.clientqueue
      → let n = accept max_clients raw now m fd in
        (find_client fd n.clientqueue ≡ none)
        × (contains n.open_fds fd ≡ true)
        × (do_kill n fd ≡ n)
        × ((r : Received) → do_read n fd r ≡ ok n)
  accept_full-leaks max_clients now fd raw m h new full =
      let missing : find_client fd m.clientqueue ≡ none =
        Managed-new m.open_fds fd m.clientqueue h new in
      let n : Manager D = record m { open_fds = fd ∷ m.open_fds } in
      rw (accept_full max_clients now fd raw m full)
        (missing, ground arith, do_kill-missing n fd missing, λ r. do_read-missing n fd r missing)
