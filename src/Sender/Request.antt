-- ===== src/Sender/Request.antt =====
-- The request that is sent to the car server fits its buffer.
use correct_gps.Base.{
  ◌+◌, ◌*◌, ◌≤◌, ◌≡◌, Bytes, arith, length, length-append, ok, fault, out_of_bounds,
}
use correct_gps.Sender.{request_text, send_request}

-- The parts of the text between the fields have 367 characters.
length-request_text :
    (domain port serial md5 xgps ygps : Bytes)
    → length (request_text domain port serial md5 xgps ygps)
      ≡ 367
        + 2 * length domain
        + 2 * length port
        + length serial
        + length md5
        + length xgps
        + length ygps
unfolding request_text
length-request_text domain port serial md5 xgps ygps = omega (arith, length-append {0})

-- For fields within the sizes of the client, a port of at most five digits, a domain name of at most
-- 200 characters, and numbers of at most 64 characters, the request fits the buffer of Send.
pub send_request-fits :
    (domain port serial md5 xgps ygps : Bytes)
    → length domain ≤ 200
    → length port ≤ 5
    → length serial ≤ 15
    → length md5 ≤ 32
    → length xgps ≤ 64
    → length ygps ≤ 64
    → send_request domain port serial md5 xgps ygps
      ≡ ok (request_text domain port serial md5 xgps ygps)
unfolding send_request
send_request-fits domain port serial md5 xgps ygps hd hp hs hm hx hy =
    ground (arith, length-request_text domain port serial md5 xgps ygps)

-- A domain name of 329 characters or more makes the request overrun the buffer of Send, whatever
-- the other fields are.
send_request-out_of_bounds :
    (domain port serial md5 xgps ygps : Bytes)
    → 329 ≤ length domain
    → send_request domain port serial md5 xgps ygps ≡ fault out_of_bounds
unfolding send_request
send_request-out_of_bounds domain port serial md5 xgps ygps long =
    ground (arith, length-request_text domain port serial md5 xgps ygps)
