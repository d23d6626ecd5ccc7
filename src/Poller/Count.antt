-- ===== src/Poller/Count.antt =====
-- `curfds` counts what is watched, and is handed to epoll_wait as the size of an array of fixed size.
use correct_gps.Base.{
  contains, IsDistinct, without-IsDistinct, without-absent, length-without, ℕ, ◌+◌, ◌≤◌, ◌<◌, ◌≡◌,
  ap, ◌∙◌, true, false, List, [], ◌∷◌, arith, length,
}
use correct_gps.Poller.{
  Poller, SocketOptions, max_descriptors, register_for_event, unregister_for_event,
}

-- One more than the watched descriptors, each of which is watched once.
pub record Counts (p : Poller) : Type 0 where
  pub exact : p.curfds ≡ length p.interest + 1
  pub distinct : IsDistinct p.interest

-- A descriptor that is not watched yet is registered, or refused, and the count stays exact.
pub register_for_event-Counts :
    (p : Poller) (o : SocketOptions) (fd : ℕ)
    → contains p.interest fd ≡ false
    → Counts p
    → Counts (register_for_event p o fd).0
unfolding register_for_event
register_for_event-Counts p o fd new c =
    ground (arith, without-absent fd p.interest new, c.distinct, c.exact)

-- To take a descriptor out keeps the count exact, whether it was watched or not.
unregister_for_event-Counts :
    (p : Poller) (fd : ℕ) → Counts p → Counts (unregister_for_event p fd).0
unfolding unregister_for_event
unregister_for_event-Counts p fd c =
    ground
      (arith, without-IsDistinct fd p.interest c.distinct, length-without fd p.interest c.distinct)

-- The registration of many descriptors, with every call of setsockopt a success.
abbrev granted : SocketOptions
granted = record { linger_ok = true; timeout_ok = true }

unfoldable register_all : Poller → List ℕ → Poller
register_all p [] = p
register_all p (fd ∷ fds) = register_all (register_for_event p granted fd).0 fds

-- Open, not watched, and all different.
abbrev AreNew : Poller → List ℕ → Type 0
AreNew p [] = Unit
AreNew p (fd ∷ fds) =
    (contains p.open_fds fd ≡ true)
    × (contains p.interest fd ≡ false)
    × (contains fds fd ≡ false)
    × AreNew p fds

AreNew-register :
    (p : Poller) (fd : ℕ) (fds : List ℕ)
    → contains fds fd ≡ false
    → AreNew p fds
    → AreNew (record p { interest = fd ∷ p.interest; curfds = p.curfds + 1 }) fds
AreNew-register p fd [] h n = tt
AreNew-register p fd (g ∷ fds) h n = ground (arith, AreNew-register p fd fds)

register_new :
    (p : Poller) (fd : ℕ)
    → contains p.open_fds fd ≡ true
    → contains p.interest fd ≡ false
    → (register_for_event p granted fd).0
      ≡ record p { interest = fd ∷ p.interest; curfds = p.curfds + 1 }
unfolding register_for_event
register_new p fd opened new = ground arith

register_all-curfds :
    (p : Poller) (fds : List ℕ) → AreNew p fds → (register_all p fds).curfds ≡ p.curfds + length fds
unfolding register_all
register_all-curfds p [] n = omega arith
register_all-curfds p (fd ∷ fds) (opened, new, once, n) =
    ap (λ q. (register_all q fds).curfds) (register_new p fd opened new)
    ∙ omega (
      arith,
      register_all-curfds (record p { interest = fd ∷ p.interest; curfds = p.curfds + 1 }) fds
          (AreNew-register p fd fds once n),
    )

-- With as many new connections as `events` has elements, all registered with success on an exact
-- count, the count that is passed to epoll_wait exceeds the size of `events`.
register_all-exceeds :
    (p : Poller) (fds : List ℕ)
    → Counts p
    → AreNew p fds
    → max_descriptors ≤ length fds
    → max_descriptors < (register_all p fds).curfds
register_all-exceeds p fds c n many = omega (arith, register_all-curfds p fds n, c.exact)
