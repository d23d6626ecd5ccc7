-- ===== src/Manager/Invariant.antt =====
-- The operations of the main loop keep clients and descriptors together.
use correct_gps.Base.{
  ℕ, ◌≡◌, ◌∙◌, false, ◌∷◌, none, some, arith, ok, ◌>>=◌, contains, without, Yields, Yields-bind,
  Option-cases, inl, inr,
}
use correct_gps.Client.{Client, ini, Received, Outcome, killed, alive, receive}
use correct_gps.Client.Descriptor.{KeepsFd, receive-KeepsFd}
use correct_gps.Manager.{
  Manager, find_client, erase_client, get_new_client, add_to_queue, do_kill, notificationthreads,
  after_receive, do_read,
}
use correct_gps.Manager.Steps.{accept}
use correct_gps.Manager.Lookup.{
  Managed, Managed-find, Managed-new, Managed-put, Managed-erase, Managed-more,
}

module _ {D : Type 0} where
  -- Each client has its key as its descriptor, which is open, and no two have the same.
  abbrev pub IsManaged : Manager D → Type 0
  IsManaged m = Managed m.open_fds m.clientqueue

  pub do_kill-missing :
      (m : Manager D) (fd : ℕ) → find_client fd m.clientqueue ≡ none → do_kill m fd ≡ m
  unfolding do_kill
  do_kill-missing m fd e = ground arith

  pub do_kill-found :
      (m : Manager D) (fd : ℕ) (c : Client D)
      → c.fd ≡ fd
      → find_client fd m.clientqueue ≡ some c
      → do_kill m fd
        ≡ record m { clientqueue = erase_client fd m.clientqueue; open_fds = without fd m.open_fds }
  unfolding do_kill
  do_kill-found m fd c same e = ground arith

  pub do_kill-IsManaged : (m : Manager D) (fd : ℕ) → IsManaged m → IsManaged (do_kill m fd)
  do_kill-IsManaged m fd h = elim (Option-cases (find_client fd m.clientqueue)) [
    | inl e ↦ rw (do_kill-missing m fd e) h
    | inr (c, e) ↦
        rw (do_kill-found m fd c (Managed-find m.open_fds fd c m.clientqueue h e).0 e)
          (Managed-erase m.open_fds fd m.clientqueue h)
  ]

  pub accept-IsManaged :
      (max_clients now fd : ℕ) (raw : Client D) (m : Manager D)
      → contains m.open_fds fd ≡ false
      → IsManaged m
      → IsManaged (accept max_clients raw now m fd)
  unfolding add_to_queue get_new_client ini
  accept-IsManaged max_clients now fd raw m new h = ground (
    arith,
    Managed-new m.open_fds fd m.clientqueue h new,
    Managed-more m.open_fds (fd ∷ m.open_fds) m.clientqueue (λ k o. ground arith) h,
  )

  after_receive-IsManaged :
      (m : Manager D) (fd : ℕ) (c : Client D) (o : Outcome D)
      → c.fd ≡ fd
      → KeepsFd c o
      → IsManaged m
      → IsManaged (after_receive m fd c o)
  unfolding after_receive notificationthreads
  after_receive-IsManaged m fd c killed e k h = do_kill-IsManaged m c.fd h
  after_receive-IsManaged m fd c (alive c' told) e k h =
      ground (arith, Managed-put m.open_fds fd c' m.clientqueue (k ∙ e) h)

  pub do_read-missing :
      (m : Manager D) (fd : ℕ) (r : Received)
      → find_client fd m.clientqueue ≡ none
      → do_read m fd r ≡ ok m
  unfolding do_read
  do_read-missing m fd r e = ground arith

  pub do_read-found :
      (m : Manager D) (fd : ℕ) (r : Received) (c : Client D)
      → find_client fd m.clientqueue ≡ some c
      → do_read m fd r ≡ (receive c r >>= λ o. ok (after_receive m fd c o))
  unfolding do_read
  do_read-found m fd r c e = ground arith

  pub do_read-IsManaged :
      (m : Manager D) (fd : ℕ) (r : Received) → IsManaged m → Yields IsManaged (do_read m fd r)
  do_read-IsManaged m fd r h = elim (Option-cases (find_client fd m.clientqueue)) [
    | inl e ↦ rw (do_read-missing m fd r e) h
    | inr (c, e) ↦ rw (do_read-found m fd r c e) (
        Yields-bind (KeepsFd c) IsManaged (receive c r) _ (receive-KeepsFd c r) (λ o k.
          after_receive-IsManaged m fd c o (Managed-find m.open_fds fd c m.clientqueue h e).0 k h))
  ]
