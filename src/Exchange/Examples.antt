-- ===== src/Exchange/Examples.antt =====
-- An exchange with the car server that is answered, and the theorem on its descriptors.
use correct_gps.Base.{ℕ, ◌≡◌, refl, [], ◌∷◌, codes, none, some, ok, Yields, inl, arith}
use correct_gps.Client.{Client}
use correct_gps.Sender.{Sender, connect, connected, send_request, request_text, close}
use correct_gps.Sender.Feedback.{chunk, recv_error, recv, has_text, text_at}
use correct_gps.Tools.Chars.{c_str}
use correct_gps.Exchange.{Answers, Settings, send2_car_server}
use correct_gps.Exchange.Ends.{IsOver, send2_car_server-IsOver}
use correct_gps.Exchange.Descriptors.{Ends, send2_car_server-Ends}

abbrev settings : Settings ℕ
settings = record { domain = codes "car"; port = codes "81"; outtime = 5; print = λ n. codes "0.0" }

abbrev phone : Client ℕ
phone = record {
  fd = 5;
  offset = 0;
  iobuf = λ k. 0;
  serial = codes "356823032255122";
  md5 = codes "2eb3";
  xbaidu = [];
  ybaidu = [];
  xgps = 0;
  ygps = 0;
  status = 2;
  delay_time = 0;
}

abbrev fresh : Sender
fresh = record { sockfd = none; fb = λ k. 0 }

abbrev answers : Answers
answers = record {
  socket = some 9;
  result = connected;
  reports = [];
  turns = record { got = chunk (codes "{\"succ\":\"1\"}"); elapsed = 0 } ∷ [];
}

phone_is_answered :
    send2_car_server settings phone fresh (5 ∷ 4 ∷ []) answers
    ≡ ok (
        some (
          5 ∷ 4 ∷ [],
          some (record {
            phone = 5;
            request =
                request_text
                  (codes "car")
                  (codes "81")
                  phone.serial
                  phone.md5
                  (codes "0.0")
                  (codes "0.0");
            reply = codes "{\"succ\":\"1\"}";
          }),
        ))
unfolding send2_car_server connect send_request request_text recv has_text text_at close c_str
phone_is_answered = refl

send2_car_server-Ends_example :
    Yields (Ends (5 ∷ 4 ∷ []) 9) (send2_car_server settings phone fresh (5 ∷ 4 ∷ []) answers)
send2_car_server-Ends_example =
    send2_car_server-Ends settings phone fresh (5 ∷ 4 ∷ []) 9 refl answers refl

-- A car server that sends a part of an answer and then nothing more, up to the sixth second.
abbrev slow_answers : Answers
slow_answers = record answers {
  turns =
      record { got = chunk (codes "{\"su"); elapsed = 0 }
      ∷ record { got = recv_error; elapsed = 6 }
      ∷ [];
}

send2_car_server-IsOver_example :
    Yields IsOver (send2_car_server settings phone fresh (5 ∷ 4 ∷ []) slow_answers)
send2_car_server-IsOver_example =
    send2_car_server-IsOver settings phone fresh (5 ∷ 4 ∷ []) slow_answers 9
      (record { got = chunk (codes "{\"su"); elapsed = 0 } ∷ []) []
      (record { got = recv_error; elapsed = 6 }) refl (inl refl) refl (omega arith)
