-- ===== src/Sender/Feedback.antt =====
-- Csender::Recv: the answer of the car server, read in chunks into `fb`.
use correct_gps.Base.{
  ℕ, zero, suc, ◌+◌, ◌-◌, ◌*◌, ◌≤◌, ◌<◌, ◌≡◌, ◌≢◌, refl, ap, ◌∙◌, Bool, true, false, List, [], ◌∷◌,
  Bytes, Cells, write, store, codes, ◌⊎◌, inl, inr, ltb, leb, ◌==◌, if◌then◌else◌, Run, ok, fault,
  out_of_bounds, ◌>>=◌, length, Option, none, some, ℤ, pos, negsuc, sub_ℕ, arith, Ensures,
  Bool-cases,
}
use correct_gps.Sender.{Sender, OpenFds, close, feedback_msg_len}

-- `strlen` is the number of bytes read, which is also how far p is from the start of `fb`; `len` is
-- the length that the next recv is called with.
pub record Reading : Type 0 where
  pub fb : Cells ℕ
  pub strlen : ℕ
  pub len : ℤ

abbrev pub minus_ℕ : ℤ → ℕ → ℤ
minus_ℕ (pos n) k = sub_ℕ n k
minus_ℕ (negsuc n) k = negsuc (n + k)

unfoldable pub start_reading : Cells ℕ → Reading
start_reading fb = record { fb = fb; strlen = 0; len = pos (feedback_msg_len - 1) }

-- The bytes of one recv: the room that is left goes down by all that was read so far.
unfoldable pub take_chunk : Reading → Bytes → Run Reading
take_chunk s chunk =
    if ltb feedback_msg_len (s.strlen + length chunk)
    then fault out_of_bounds
    else ok (record {
      fb = store s.fb s.strlen chunk;
      strlen = s.strlen + length chunk;
      len = minus_ℕ s.len (s.strlen + length chunk);
    })

-- strstr over `fb` from cell i on, with n cells left before its end.
unfoldable pub text_at : Bytes → Cells ℕ → ℕ → ℕ → Run Bool
text_at [] fb i n = ok true
text_at (c ∷ cs) fb i zero = fault out_of_bounds
text_at (c ∷ cs) fb i (suc n) = elim (fb i == c) [
  | true ↦ text_at cs fb (i + 1) n
  | false ↦ ok false
]

unfoldable pub has_text : Bytes → Cells ℕ → ℕ → ℕ → Run Bool
has_text needle fb i zero = fault out_of_bounds
has_text needle fb i (suc n) = text_at needle fb i (suc n) >>= λ hit. elim hit [
  | true ↦ ok true
  | false ↦ elim (fb i == 0) [ true ↦ ok false | false ↦ has_text needle fb (i + 1) n ]
]

-- The answer has come whole.
unfoldable pub is_complete : Cells ℕ → Run Bool
is_complete fb = has_text (codes "{\"succ\":\"") fb 0 feedback_msg_len >>= λ opened. elim opened [
  | true ↦ has_text (codes "}") fb 0 feedback_msg_len
  | false ↦ ok false
]

-- One turn of the loop: what recv gives, and the seconds since the start.
pub data Got : Type 0 where
  recv_error peer_closed : Got
  chunk : Bytes → Got

pub record Turn : Type 0 where
  pub got : Got
  pub elapsed : ℕ

unfoldable pub after_recv : Reading → Got → Run Reading
unfolding take_chunk
after_recv s recv_error = ok s
after_recv s peer_closed = ok s
after_recv s (chunk bytes) = take_chunk s bytes

-- What Recv returns: the length of the last chunk, or 0.
abbrev pub last_ret : Got → ℕ
last_ret recv_error = 0
last_ret peer_closed = 0
last_ret (chunk bytes) = length bytes

-- The loop. None: it is still reading when the turns end.
unfoldable pub recv_loop : ℕ → Reading → List Turn → Run (Option (Reading × ℕ))
unfolding after_recv is_complete
recv_loop outtime s [] = ok none
recv_loop outtime s (turn ∷ later) = after_recv s turn.got >>= λ s'.
    elim (ltb outtime turn.elapsed) [
      | true ↦ ok (some (s', last_ret turn.got))
      | false ↦ is_complete s'.fb >>= λ whole. elim whole [
        | true ↦ ok (some (s', last_ret turn.got))
        | false ↦ recv_loop outtime s' later
      ]
    ]

-- The NUL behind the answer, and Close.
unfoldable pub end_reading : Sender → OpenFds → Reading → ℕ → Run (Sender × OpenFds × ℕ)
end_reading s open_fds r ret =
    if ltb r.strlen feedback_msg_len
    then (let (s', fds) = close (record s { fb = write r.fb r.strlen 0 }) open_fds in
        ok (s', fds, ret))
    else fault out_of_bounds

unfoldable pub recv : ℕ → Sender → OpenFds → List Turn → Run (Option (Sender × OpenFds × ℕ))
unfolding recv_loop end_reading start_reading
recv outtime s open_fds turns = elim s.sockfd [
  | none ↦ end_reading s open_fds (start_reading s.fb) 0 >>= λ r. ok (some r)
  | some fd ↦ recv_loop outtime (start_reading s.fb) turns >>= λ o. elim o [
    | none ↦ ok none
    | some (r, ret) ↦ end_reading s open_fds r ret >>= λ q. ok (some q)
  ]
]

-- What recv may deliver for a length: at most that many bytes, and any number for a negative
-- length, which it takes for a huge one.
abbrev pub MayDeliver : ℤ → ℕ → Type 0
MayDeliver (pos n) k = k ≤ n
MayDeliver (negsuc n) k = Unit

-- The room that is left is inside the buffer, with a cell for the NUL.
abbrev pub Accounts : Reading → Type 0
Accounts s = (n : ℕ) × (s.len ≡ pos n) × (s.strlen + n < feedback_msg_len)

-- While the loop of Recv asks for a length that is inside what is left of the buffer, a chunk of no
-- more than that ends with no fault, and then the loop asks for such a length again, or for a
-- negative one.
take_chunk-Accounts :
    (s : Reading) (bytes : Bytes)
    → Accounts s
    → MayDeliver s.len (length bytes)
    → Ensures
        (take_chunk s bytes)
        (λ t. (t.strlen < feedback_msg_len) × (Accounts t ⊎ ((n : ℕ) × (t.len ≡ negsuc n))))
unfolding take_chunk
take_chunk-Accounts s bytes (n, e, room) may =
    rw fits (omega (arith, few), left (Bool-cases (leb (s.strlen + length bytes) n)))
  where
    few : length bytes ≤ n
    few = rw e at may

    fits : ltb feedback_msg_len (s.strlen + length bytes) ≡ false
    fits = ground arith

    len' : ℤ
    len' = minus_ℕ s.len (s.strlen + length bytes)

    len'-eq : len' ≡ sub_ℕ n (s.strlen + length bytes)
    len'-eq = ap (λ l. minus_ℕ l (s.strlen + length bytes)) e

    left :
        (leb (s.strlen + length bytes) n ≡ true) ⊎ (leb (s.strlen + length bytes) n ≡ false)
        → ((m : ℕ) × (len' ≡ pos m) × (s.strlen + length bytes + m < feedback_msg_len))
          ⊎ ((m : ℕ) × (len' ≡ negsuc m))
    left (inl some_left) = inl (n - (s.strlen + length bytes), len'-eq ∙ rw some_left, ground arith)
    left (inr beyond) = inr (s.strlen + length bytes - n - 1, len'-eq ∙ rw beyond)

-- Two chunks that fit, with twice the first and the second beyond the buffer, leave a negative
-- length: recv may then deliver any number of bytes, and more than is left overruns `fb`.
take_chunk-overruns :
    (fb : Cells ℕ) (a b c : Bytes)
    → length a + length b < feedback_msg_len
    → feedback_msg_len ≤ 2 * length a + length b
    → feedback_msg_len < length a + length b + length c
    → (t : Reading) × ((take_chunk (start_reading fb) a >>= λ s. take_chunk s b) ≡ ok t)
      × MayDeliver t.len (length c)
      × (take_chunk t c ≡ fault out_of_bounds)
unfolding take_chunk start_reading
take_chunk-overruns fb a b c fit twice over = (
  record {
    fb = store (store fb 0 a) (0 + length a) b;
    strlen = 0 + length a + length b;
    len = negsuc (length a + (length a + length b) - (feedback_msg_len - 1) - 1);
  },
  ground arith,
  tt,
  ground arith,
)

has_text-unterminated :
    (c : ℕ) (cs : Bytes) (fb : Cells ℕ) (n i : ℕ)
    → ((k : ℕ) → i ≤ k → k < i + n → (fb k ≢ 0) × (fb k ≢ c))
    → has_text (c ∷ cs) fb i n ≡ fault out_of_bounds
unfolding has_text text_at
has_text-unterminated c cs fb zero i h = refl
has_text-unterminated c cs fb (suc n) i h = ground (
  arith,
  h i,
  has_text-unterminated c cs fb n (i + 1) (λ k lo hi. h k (omega arith) (omega arith)),
)

-- The search for the end of the answer leaves the buffer where neither a NUL nor the start of an
-- answer stands in it.
is_complete-out_of_bounds :
    (fb : Cells ℕ)
    → ((k : ℕ) → k < feedback_msg_len → (fb k ≢ 0) × (fb k ≢ b'{'))
    → is_complete fb ≡ fault out_of_bounds
unfolding is_complete
is_complete-out_of_bounds fb h = rw (
    has_text-unterminated b'{' (codes "\"succ\":\"") fb feedback_msg_len 0
      (λ k lo hi. h k (omega arith)))
