-- ===== src/Manager/Work.antt =====
-- What holds of the end of a worker's part under the lock of the map, case by case.
use correct_gps.Base.{
  ◌++◌, ℕ, ◌≡◌, Bool, true, false, ◌&&◌, Option, none, some, ltb, if◌then◌else◌, ok, ◌>>=◌, arith,
  length, Yields, Yields-bind, Option-cases, inl, inr,
}
use correct_gps.Client.{Client, get_send2_car_server}
use correct_gps.Sender.{OpenFds}
use correct_gps.Correct.{correctgps_worker}
use correct_gps.Exchange.{Talk, send2_car_server}
use correct_gps.Manager.{said, Manager, Context, find_client, put_client, send_corrected, work}

module _ {D : Type 0} where
  -- The manager behind an exchange, and the descriptor to kill.
  abbrev pub after_exchange :
      Manager D → ℕ → Client D → Option (OpenFds × Option Talk) → Option (Manager D × Option ℕ)
  after_exchange m fd c none = none
  after_exchange m fd c (some (fds, text)) = some (
    record m {
      clientqueue = put_client fd c m.clientqueue;
      open_fds = fds;
      talks = m.talks ++ said text;
    },
    some c.fd,
  )

  -- Either there is an exchange, or the client is put back and nothing is killed.
  pub send_corrected-Yields {ℓ} :
      (P : Option (Manager D × Option ℕ) → Type ℓ) (x : Context D) (m : Manager D) (fd : ℕ)
      (c : Client D)
      → Yields
          (λ o. P (after_exchange m fd c o))
          (send2_car_server x.settings c x.sender m.open_fds x.answers)
      → P (some (record m { clientqueue = put_client fd c m.clientqueue }, none))
      → Yields P (send_corrected x m fd c)
  unfolding send_corrected
  send_corrected-Yields P x m fd c exchange kept =
      by_test (get_send2_car_server c && ltb 0 (length c.serial))
    where
      by_result :
          (o : Option (OpenFds × Option Talk))
          → P (after_exchange m fd c o)
          → Yields P (elim o [
            | none ↦ ok none
            | some (fds, text) ↦ ok (
                some (
                  record m {
                    clientqueue = put_client fd c m.clientqueue;
                    open_fds = fds;
                    talks = m.talks ++ said text;
                  },
                  some c.fd,
                ))
          ])
      by_result none h = h
      by_result (some (fds, text)) h = h

      by_test :
          (test : Bool)
          → Yields P (
              if test
              then (send2_car_server x.settings c x.sender m.open_fds x.answers >>= λ o. elim o [
                | none ↦ ok none
                | some (fds, text) ↦ ok (
                    some (
                      record m {
                        clientqueue = put_client fd c m.clientqueue;
                        open_fds = fds;
                        talks = m.talks ++ said text;
                      },
                      some c.fd,
                    ))
              ])
              else ok (some (record m { clientqueue = put_client fd c m.clientqueue }, none)))
      by_test true =
          Yields-bind (λ o. P (after_exchange m fd c o)) P
            (send2_car_server x.settings c x.sender m.open_fds x.answers) _ exchange by_result
      by_test false = kept

  pub work-found :
      (x : Context D) (m : Manager D) (fd : ℕ) (c : Client D)
      → find_client fd m.clientqueue ≡ some c
      → work x m (some fd)
        ≡ (correctgps_worker x.doubles x.infomap x.gpsxy c >>= λ c'. send_corrected x m fd c')
  unfolding work
  work-found x m fd c e = ground arith

  work-missing :
      (x : Context D) (m : Manager D) (fd : ℕ)
      → find_client fd m.clientqueue ≡ none
      → work x m (some fd) ≡ ok (some (m, none))
  unfolding work
  work-missing x m fd e = ground arith

  -- Either there is nothing to do, or a client is corrected, of which `Q` holds then.
  pub work-Yields {ℓ} :
      (P : Option (Manager D × Option ℕ) → Type ℓ) (Q : Client D → Client D → Type 0)
      (x : Context D) (m : Manager D) (fd : Option ℕ)
      → ((c : Client D) → Yields (Q c) (correctgps_worker x.doubles x.infomap x.gpsxy c))
      → P (some (m, none))
      → ((k : ℕ) (c b : Client D)
          → find_client k m.clientqueue ≡ some c
          → Q c b
          → Yields P (send_corrected x m k b))
      → Yields P (work x m fd)
  work-Yields P Q x m none corrects nothing sends = unfold work in nothing
  work-Yields P Q x m (some fd) corrects nothing sends =
      elim (Option-cases (find_client fd m.clientqueue)) [
        | inl e ↦ rw (work-missing x m fd e) nothing
        | inr (c, e) ↦ rw (work-found x m fd c e) (
            Yields-bind (Q c) P (correctgps_worker x.doubles x.infomap x.gpsxy c) _ (corrects c)
              (λ b k. sends fd c b e k))
      ]
