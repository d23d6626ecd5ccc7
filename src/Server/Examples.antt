-- ===== src/Server/Examples.antt =====
-- The theorem on the listening socket at concrete addresses.
use correct_gps.Base.{◌≡◌, refl, true, false, List, [], ◌∷◌, none, some, arith}
use correct_gps.Server.{Address, create_listener, bind_first, bind_socket, listen_on}
use correct_gps.Server.Descriptors.{Listens, create_listener-Listens}

-- The first address is in use, and the second can be bound.
abbrev addresses : List Address
addresses =
    record { socket = some 3; reuse_ok = true; defer_ok = true; bind_ok = false }
    ∷ record { socket = some 3; reuse_ok = true; defer_ok = true; bind_ok = true }
    ∷ []

second_is_bound :
    create_listener (some addresses) true (0 ∷ [])
    ≡ record { sockfd = some 3; open_fds = 3 ∷ 0 ∷ []; exit_code = none }
unfolding create_listener bind_first bind_socket listen_on
second_is_bound = refl

create_listener-Listens_example : Listens (0 ∷ []) (create_listener (some addresses) true (0 ∷ []))
create_listener-Listens_example =
    create_listener-Listens (some addresses) true (0 ∷ [])
      ((λ fd e. ground arith), ((λ fd e. ground arith), tt))
