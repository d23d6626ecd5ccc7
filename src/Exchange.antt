-- ===== src/Exchange.antt =====
-- CClient::Send2CarServer and sendback (src/CClient.cpp): one exchange with the car server, whose
-- answer goes back to the phone.
pub mod Descriptors
pub mod Reply
pub mod Ends
mod Examples
use correct_gps.Base.{
  ℕ, ◌+◌, ◌≡◌, refl, ap, ◌∙◌, true, false, List, [], ◌∷◌, Bytes, Cells, slice, Option, none, some,
  ◌⊎◌, inl, inr, Run, ok, fault, ◌>>=◌, Bool, ◌==◌, if◌then◌else◌, contains, without,
  without-absent, arith,
}
use correct_gps.Tools.Chars.{c_str}
use correct_gps.Client.{Client}
use correct_gps.Sender.{
  Sender, OpenFds, Select, ConnectResult, connect, send_request, feedback_msg_len,
}
use correct_gps.Sender.Feedback.{Turn, recv}

-- What the system answers in the course of an exchange.
pub record Answers : Type 0 where
  pub socket : Option ℕ
  pub result : ConnectResult
  pub reports : List Select
  pub turns : List Turn

-- The settings that an exchange reads, and the text that sprintf ("%.8f") gives for a number.
pub record Settings (D : Type 0) : Type 0 where
  pub domain : Bytes
  pub port : Bytes
  pub outtime : ℕ
  pub print : D → Bytes

-- What goes over the connections: the request of Send, and the answer that goes back to the phone, on
-- its descriptor.
pub record Talk : Type 0 where
  pub phone : ℕ
  pub request : Bytes
  pub reply : Bytes

-- strlen (client->fb) is the length of the text before its first NUL.
abbrev pub feedback : Sender → Bytes
feedback s = c_str (slice s.fb 0 feedback_msg_len)

module _ {D : Type 0} where
  -- Connected: Send, and Recv, which closes the socket. The reply is what sendback sends.
  unfoldable pub ask :
      Settings D → Client D → Sender → OpenFds → List Turn → Run (Option (OpenFds × Option Talk))
  ask g c s fds turns =
      send_request g.domain g.port c.serial c.md5 (g.print c.xgps) (g.print c.ygps) >>= λ request.
      recv g.outtime s fds turns >>= λ o. elim o [
        | none ↦ ok none
        | some (s', fds', ret) ↦
            ok (some (fds', some (record { phone = c.fd; request = request; reply = feedback s' })))
      ]

  -- The answer of Connect. The outer none is for an exchange that still waits when the answers end.
  unfoldable pub after_connect :
      Settings D
      → Client D
      → List Turn
      → Option (Sender × OpenFds × Bool)
      → Run (Option (OpenFds × Option Talk))
  unfolding ask
  after_connect g c turns none = ok none
  after_connect g c turns (some (s, fds, true)) = ask g c s fds turns
  after_connect g c turns (some (s, fds, false)) = ok (some (fds, none))

  -- The open descriptors, and what was said. `s` is the new Csender, which is not
  -- initialised.
  unfoldable pub send2_car_server :
      Settings D → Client D → Sender → OpenFds → Answers → Run (Option (OpenFds × Option Talk))
  unfolding after_connect
  send2_car_server g c s open_fds a =
      after_connect g c a.turns (connect s open_fds a.socket a.result a.reports)
