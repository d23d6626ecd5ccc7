-- ===== src/Client/Descriptor.antt =====
-- No request changes the descriptor of its client.
use correct_gps.Base.{
  Run, false, ◌>>=◌, fault, ok, ℕ, ◌+◌, ◌-◌, ◌≡◌, refl, Bool, ok, fault, aborted, arith, ltb,
  if◌then◌else◌, length, write, store, Yields, Yields-bind, Yields-after,
}
use correct_gps.Tools.Clock.{Tm}
use correct_gps.Client.{
  Client, navto, serial_word, serial_len, md5_word, md5_len, xbaidu_word, ybaidu_word, scan,
  read_text, read_coordinate, keep_rest, read_fields, at_navto, parse_len, parse_log, parse_bytes,
  parse, Received, recv_error, peer_closed, arrived, Outcome, killed, alive, receive,
}

module _ {D : Type 0} where
  abbrev SameFd : Client D → Client D × Bool → Type 0
  SameFd c r = r.0.fd ≡ c.fd

  read_fields-SameFd : (c : Client D) (len j : ℕ) → Yields (SameFd c) (read_fields c len j)
  unfolding read_fields
  read_fields-SameFd c len j =
      Yields-after _ (read_text serial_word 7 serial_len c.iobuf len j) _ (λ serial.
        Yields-after _ (read_text md5_word 4 md5_len c.iobuf len j) _ (λ md5.
          Yields-after _ (scan xbaidu_word c.iobuf (len - j) j) _ (λ x.
            Yields-after _ (if ltb x len then read_coordinate c.iobuf x c.xbaidu else fault aborted)
              _
              (λ xbaidu. Yields-after _ (scan ybaidu_word c.iobuf (len - j) j) _ (λ y.
                Yields-after _
                  (if ltb y len then read_coordinate c.iobuf y c.ybaidu else ok c.ybaidu) _
                  (λ ybaidu. refl))))))

  at_navto-SameFd : (c : Client D) (len i : ℕ) → Yields (SameFd c) (at_navto c len i)
  unfolding at_navto
  at_navto-SameFd c len i = ground (
    arith,
    read_fields-SameFd c len (i + 6),
    kept (keep_rest c len i) (unfold keep_rest in ground arith),
  )
    where
      kept :
          (r : Run (Client D))
          → Yields (λ b. b.fd ≡ c.fd) r
          → Yields (SameFd c) (r >>= λ b. ok (b, false))
      kept (ok b) h = h
      kept (fault e) h = tt

  parse_len-SameFd : (c : Client D) (len : ℕ) → Yields (SameFd c) (parse_len c len)
  unfolding parse_len
  parse_len-SameFd c len =
      Yields-after _ (scan navto c.iobuf len 0) _ (λ i. ground (arith, at_navto-SameFd c len i))

  parse_bytes-SameFd : (c : Client D) (ulen : ℕ) → Yields (SameFd c) (parse_bytes c ulen)
  unfolding parse_bytes
  parse_bytes-SameFd c ulen = ground (
    arith,
    parse_len-SameFd (record c { iobuf = write c.iobuf (ulen + c.offset) 0 }) (ulen + c.offset),
  )

  parse-SameFd : (now : Tm) (c : Client D) (ulen : ℕ) → Yields (SameFd c) (parse now c ulen)
  unfolding parse
  parse-SameFd now c ulen =
      Yields-after (SameFd c) (parse_log now c) _ (λ e. parse_bytes-SameFd c ulen)

  -- The client that lives on has the same descriptor.
  abbrev pub KeepsFd : Client D → Outcome D → Type 0
  KeepsFd c killed = Unit
  KeepsFd c (alive c' told) = c'.fd ≡ c.fd

  pub receive-KeepsFd : (c : Client D) (r : Received) → Yields (KeepsFd c) (receive c r)
  unfolding receive
  receive-KeepsFd c recv_error = tt
  receive-KeepsFd c peer_closed = tt
  receive-KeepsFd c (arrived now bytes) =
      Yields-bind (SameFd c) _
        (parse now (record c { iobuf = store c.iobuf c.offset bytes }) (length bytes)) _
        (parse-SameFd now (record c { iobuf = store c.iobuf c.offset bytes }) (length bytes))
        (λ r e. e)
