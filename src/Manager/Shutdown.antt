-- ===== src/Manager/Shutdown.antt =====
-- The destructor of CclientManager (src/CclientManager.cpp), which runs where main returns.
use correct_gps.Base.{
  ℕ, ◌≡◌, refl, false, List, [], ◌∷◌, some, arith, contains, without, contains-without_same,
  contains-without_ne,
}
use correct_gps.Client.{Client}
use correct_gps.Manager.{Manager, ClientMap, find_client}
use correct_gps.Manager.Lookup.{Managed}
use correct_gps.Manager.Invariant.{IsManaged}

module _ {D : Type 0} where
  -- To delete a client closes its descriptor.
  unfoldable pub delete_all : ClientMap D → List ℕ → List ℕ
  delete_all [] open_fds = open_fds
  delete_all ((fd, c) ∷ q) open_fds = delete_all q (without c.fd open_fds)

  unfoldable pub destroy : Manager D → Manager D
  unfolding delete_all
  destroy m = record m {
    clientqueue = [];
    msglist = [];
    open_fds = delete_all m.clientqueue m.open_fds;
  }

  delete_all-closed :
      (fd : ℕ) (q : ClientMap D) (open_fds : List ℕ)
      → contains open_fds fd ≡ false
      → contains (delete_all q open_fds) fd ≡ false
  unfolding delete_all
  delete_all-closed fd [] open_fds h = h
  delete_all-closed fd ((k, c) ∷ q) open_fds h =
      delete_all-closed fd q (without c.fd open_fds) (contains-without_ne c.fd fd open_fds h)

  -- No client is left with its descriptor open.
  delete_all-closes :
      (fd : ℕ) (c : Client D) (q : ClientMap D) (all open_fds : List ℕ)
      → Managed all q
      → find_client fd q ≡ some c
      → contains (delete_all q open_fds) fd ≡ false
  unfolding delete_all find_client
  delete_all-closes fd c [] all open_fds h e = ground arith
  delete_all-closes fd c ((k, b) ∷ q) all open_fds (same, o, u, h) e = ground (
    arith,
    delete_all-closes fd c q all (without b.fd open_fds) h,
    delete_all-closed fd q (without b.fd open_fds),
    contains-without_same b.fd open_fds,
  )

  -- Where clients and descriptors belong together, every client's descriptor is closed with the
  -- manager, and no client is left.
  destroy-closes_clients :
      (m : Manager D) (fd : ℕ) (c : Client D)
      → IsManaged m
      → find_client fd m.clientqueue ≡ some c
      → (contains (destroy m).open_fds fd ≡ false) × ((destroy m).clientqueue ≡ [])
  unfolding destroy
  destroy-closes_clients m fd c h e =
      (delete_all-closes fd c m.clientqueue m.open_fds m.open_fds h e, refl)
