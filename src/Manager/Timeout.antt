-- ===== src/Manager/Timeout.antt =====
-- CclientManager::killTimeoutClient (src/CclientManager.cpp), which nothing calls.
use correct_gps.Base.{
  ℕ, ◌%◌, ◌^◌, ◌≡◌, ◌≢◌, refl, Bool, true, false, ◌&&◌, ◌||◌, [], ◌∷◌, none, some, ltb, ◌==◌,
  length, if◌then◌else◌, Run, ok, fault, dangling, arith,
}
use correct_gps.OffsetArray.{sub_u32}
use correct_gps.Client.{Client}
use correct_gps.Manager.{Manager, ClientMap, find_client, do_kill}
use correct_gps.Manager.Lookup.{find-erase_same}

module _ {D : Type 0} where
  abbrev pub lacks_serial : Client D → Bool
  lacks_serial c = length c.serial == 0

  -- The test of a client without a serial. The time that has passed is an unsigned int.
  abbrev pub is_timed_out : ℕ → ℕ → Client D → Bool
  is_timed_out outtime_s now c =
      (if outtime_s == 0 then false else true)
      || ltb outtime_s (sub_u32 (now % 2 ^ 32) (c.delay_time % 2 ^ 32))

  -- The loop over the entries: it goes on from the entry of `it`, which is gone where DoKill has
  -- erased it.
  unfoldable pub kill_idle : ℕ → ℕ → ClientMap D → Manager D → Run (Manager D)
  kill_idle outtime_s now [] m = ok m
  kill_idle outtime_s now ((fd, c) ∷ later) m =
      let killed = do_kill m fd in
      let on = kill_idle outtime_s now later killed in
      let skipped = kill_idle outtime_s now later m in
      if lacks_serial c && is_timed_out outtime_s now c
      then elim (find_client fd killed.clientqueue) [ none ↦ fault dangling | some b ↦ on ]
      else skipped

  unfoldable pub kill_timeout_client : ℕ → ℕ → Manager D → Run (Manager D)
  unfolding kill_idle
  kill_timeout_client outtime_s now m = kill_idle outtime_s now m.clientqueue m

  -- Some client has no serial yet.
  abbrev pub has_idle : ClientMap D → Bool
  has_idle [] = false
  has_idle ((fd, c) ∷ q) = lacks_serial c || has_idle q

  do_kill-gone : (m : Manager D) (fd : ℕ) → find_client fd (do_kill m fd).clientqueue ≡ none
  unfolding do_kill
  do_kill-gone m fd = ground (arith, find-erase_same fd m.clientqueue)

  kill_idle-dangling :
      (outtime_s now : ℕ) (q : ClientMap D) (m : Manager D)
      → outtime_s ≢ 0
      → kill_idle outtime_s now q m ≡ (if has_idle q then fault dangling else ok m)
  unfolding kill_idle
  kill_idle-dangling outtime_s now [] m set = refl
  kill_idle-dangling outtime_s now ((fd, c) ∷ q) m set =
      ground (arith, do_kill-gone m fd, kill_idle-dangling outtime_s now q m set)

  -- With a timeout in the configuration, killTimeoutClient leaves the clients as they are where each
  -- has a serial. Where one has none, it uses the iterator of an entry that it has erased, however
  -- short the time is that the client has been there.
  kill_timeout_client-dangling :
      (outtime_s now : ℕ) (m : Manager D)
      → outtime_s ≢ 0
      → kill_timeout_client outtime_s now m
        ≡ (if has_idle m.clientqueue then fault dangling else ok m)
  unfolding kill_timeout_client
  kill_timeout_client-dangling outtime_s now m set =
      kill_idle-dangling outtime_s now m.clientqueue m set
