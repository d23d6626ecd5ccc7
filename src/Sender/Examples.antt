-- ===== src/Sender/Examples.antt =====
-- Runs of the sender, and its theorems at concrete inputs.
use correct_gps.Base.{ℕ, ◌≡◌, refl, [], ◌∷◌, Bytes, Option, none, some, codes, ok, ◌>>=◌, Run}
use correct_gps.Sender.{close, Sender, OpenFds}
use correct_gps.Sender.Feedback.{chunk, recv, has_text, text_at}

abbrev idle_sender : Sender
idle_sender = record { sockfd = some 9; fb = λ k. b'?' }

answer : Bytes
answer = codes "{\"succ\":\"1\"}"

-- The length of the last chunk, and the descriptors left open.
summary : Run (Option (Sender × OpenFds × ℕ)) → Run (Option (ℕ × OpenFds))
summary r = r >>= λ o. elim o [ none ↦ ok none | some (s, fds, ret) ↦ ok (some (ret, fds)) ]

answer_is_read :
    summary (
      recv 5
        (record idle_sender { fb = λ k. 0 })
        (9 ∷ 4 ∷ [])
        (record { got = chunk (codes "HTTP "); elapsed = 0 }
          ∷ record { got = chunk answer; elapsed = 1 }
          ∷ []))
    ≡ ok (some (12, 4 ∷ []))
unfolding summary recv has_text text_at close answer
answer_is_read = refl
