-- ===== src/Server/Descriptors.antt =====
-- Which descriptors createListener leaves open.
use correct_gps.Base.{
  ℕ, ◌≡◌, refl, ap, ◌∙◌, ◌⊎◌, inl, inr, Bool, true, false, List, [], ◌∷◌, Option, none, some,
  if◌then◌else◌, without, without-absent, contains, arith, Option-cases,
}
use correct_gps.Server.{
  Address, Listener, Bound, bound, exhausted, gave_up, bind_socket, bind_first, listen_on,
  create_listener,
}

-- Each socket is new: its descriptor was not open.
abbrev pub AreFresh : List ℕ → List Address → Type 0
AreFresh open_fds [] = Unit
AreFresh open_fds (a ∷ later) =
    ((fd : ℕ) → a.socket ≡ some fd → contains open_fds fd ≡ false) × AreFresh open_fds later

abbrev pub IsFresh : List ℕ → Option (List Address) → Type 0
IsFresh open_fds none = Unit
IsFresh open_fds (some servinfo) = AreFresh open_fds servinfo

-- How createListener ends: with the listening socket open and nothing else, or with an error and
-- nothing open, or, where an option of a socket cannot be set, with an error and that socket open.
pub data Listens (open_fds : List ℕ) (l : Listener) : Type 0 where
  listening :
      (fd : ℕ)
      → l.sockfd ≡ some fd
      → l.open_fds ≡ fd ∷ open_fds
      → l.exit_code ≡ none
      → Listens open_fds l
  failed :
      (code : ℕ)
      → l.sockfd ≡ none
      → l.open_fds ≡ open_fds
      → l.exit_code ≡ some code
      → Listens open_fds l
  leaked :
      (fd code : ℕ)
      → l.sockfd ≡ none
      → l.open_fds ≡ fd ∷ open_fds
      → (code ≡ 202) ⊎ (code ≡ 203)
      → l.exit_code ≡ some code
      → Listens open_fds l

-- What the loop over the addresses leaves.
abbrev Binds : List ℕ → Bound → Type 0
Binds open_fds (bound fd fds) = (fds ≡ fd ∷ open_fds) × (contains open_fds fd ≡ false)
Binds open_fds (exhausted fds) = fds ≡ open_fds
Binds open_fds (gave_up l) = Listens open_fds l

closed_again :
    (fd : ℕ) (open_fds : List ℕ)
    → contains open_fds fd ≡ false
    → without fd (fd ∷ open_fds) ≡ open_fds
closed_again fd open_fds new = ground (arith, without-absent fd open_fds new)

bind_socket-Binds :
    (fd : ℕ) (open_fds : List ℕ) (a : Address) (later : Bound)
    → contains open_fds fd ≡ false
    → Binds open_fds later
    → Binds open_fds (bind_socket fd (fd ∷ open_fds) a later)
unfolding bind_socket
bind_socket-Binds fd open_fds a later new h = by_reuse a.reuse_ok
  where
    by_bind : (b : Bool) → Binds open_fds (if b then bound fd (fd ∷ open_fds) else later)
    by_bind true = (refl, new)
    by_bind false = h

    by_defer :
        (b : Bool)
        → Binds open_fds (
            if b
            then (if a.bind_ok then bound fd (fd ∷ open_fds) else later)
            else gave_up (record { sockfd = none; open_fds = fd ∷ open_fds; exit_code = some 203 }))
    by_defer true = by_bind a.bind_ok
    by_defer false = leaked fd 203 refl refl (inr refl) refl

    by_reuse :
        (b : Bool)
        → Binds open_fds (
            if b
            then (if a.defer_ok
                then (if a.bind_ok then bound fd (fd ∷ open_fds) else later)
                else gave_up
                    (record { sockfd = none; open_fds = fd ∷ open_fds; exit_code = some 203 }))
            else gave_up (record { sockfd = none; open_fds = fd ∷ open_fds; exit_code = some 202 }))
    by_reuse true = by_defer a.defer_ok
    by_reuse false = leaked fd 202 refl refl (inl refl) refl

bind_first-none :
    (open_fds : List ℕ) (a : Address) (later : List Address)
    → a.socket ≡ none
    → bind_first open_fds (a ∷ later) ≡ bind_first open_fds later
unfolding bind_first
bind_first-none open_fds a later h = rw h refl

bind_first-some :
    (open_fds : List ℕ) (a : Address) (later : List Address) (fd : ℕ)
    → a.socket ≡ some fd
    → contains open_fds fd ≡ false
    → bind_first open_fds (a ∷ later) ≡ bind_socket fd (fd ∷ open_fds) a (bind_first open_fds later)
unfolding bind_first
bind_first-some open_fds a later fd h new =
    rw h (
      ap (λ l. bind_socket fd (fd ∷ open_fds) a (bind_first l later))
        (closed_again fd open_fds new))

bind_first-Binds :
    (open_fds : List ℕ) (servinfo : List Address)
    → AreFresh open_fds servinfo
    → Binds open_fds (bind_first open_fds servinfo)
bind_first-Binds open_fds [] f = unfold bind_first in refl
bind_first-Binds open_fds (a ∷ later) (new, f) = elim (Option-cases a.socket) [
  | inl h ↦ rw (bind_first-none open_fds a later h) (bind_first-Binds open_fds later f)
  | inr (fd, h) ↦ rw (bind_first-some open_fds a later fd h (new fd h)) (
      bind_socket-Binds fd open_fds a (bind_first open_fds later) (new fd h)
        (bind_first-Binds open_fds later f))
]

listen_on-Listens :
    (open_fds : List ℕ) (listen_ok : Bool) (b : Bound)
    → Binds open_fds b
    → Listens open_fds (listen_on listen_ok b)
unfolding listen_on
listen_on-Listens open_fds listen_ok (gave_up l) h = h
listen_on-Listens open_fds listen_ok (exhausted fds) h = failed 204 refl h refl
listen_on-Listens open_fds true (bound fd fds) (h, new) = listening fd refl h refl
listen_on-Listens open_fds false (bound fd fds) (h, new) =
    failed 205 refl (ap (without fd) h ∙ closed_again fd open_fds new) refl

-- Where the sockets that the system makes have descriptors that were not open, createListener either
-- listens, with just its socket open besides what was open before, or sets the exit flag and leaves
-- the open descriptors as they were, but for a socket that refuses an option: that one stays open.
pub create_listener-Listens :
    (servinfo : Option (List Address)) (listen_ok : Bool) (open_fds : List ℕ)
    → IsFresh open_fds servinfo
    → Listens open_fds (create_listener servinfo listen_ok open_fds)
unfolding create_listener
create_listener-Listens none listen_ok open_fds f = failed 201 refl refl refl
create_listener-Listens (some servinfo) listen_ok open_fds f =
    listen_on-Listens open_fds listen_ok (bind_first open_fds servinfo)
      (bind_first-Binds open_fds servinfo f)
