-- ===== src/Sender.antt =====
-- Csender (src/Csender.h, src/Csender.cpp, the NONEBLOCK_SOCKET build): the connection to the car
-- server. What socket, connect, select, getsockopt, recv and time give is an argument of each call.
pub mod Feedback
pub mod Connect
pub mod Request
mod Examples
use correct_gps.Base.{
  without, ℕ, zero, suc, ◌+◌, ◌-◌, Bool, true, false, not, ◌&&◌, List, [], ◌∷◌, ◌++◌, Bytes, Cells,
  write, store, codes, ltb, leb, ◌==◌, if◌then◌else◌, Run, ok, fault, out_of_bounds, ◌>>=◌, length,
  Option, none, some, ℤ, pos, negsuc, sub_ℕ,
}

-- FEEDBACK_MSG_LEN, and the size of `data` in Send
abbrev pub feedback_msg_len : ℕ
feedback_msg_len = 1024

abbrev pub data_size : ℕ
data_size = 1024

-- `sockfd` is none for INVALID_SOCKET.
pub record Sender : Type 0 where
  pub sockfd : Option ℕ
  pub fb : Cells ℕ

-- The descriptors that the process has open.
abbrev pub OpenFds : Type 0
OpenFds = List ℕ

abbrev pub close_fd : ℕ → OpenFds → OpenFds
close_fd = without

unfoldable pub close : Sender → OpenFds → Sender × OpenFds
close s open_fds = elim s.sockfd [
  | none ↦ (s, open_fds)
  | some fd ↦ (record s { sockfd = none }, close_fd fd open_fds)
]

-- What select reports: a timeout, an error, or the sets that hold the socket, with the answer of
-- getsockopt on a socket that can be written (true for an error).
pub data Select : Type 0 where
  timed_out select_failed : Select
  ready : (writable exception so_error : Bool) → Select

pub data ConnectResult : Type 0 where
  connected in_progress refused : ConnectResult

-- The loop over select. None: it is still waiting when the reports end.
unfoldable pub wait_connect : List Select → Option Bool
wait_connect [] = none
wait_connect (timed_out ∷ later) = wait_connect later
wait_connect (select_failed ∷ later) = some false
wait_connect (ready writable exception so_error ∷ later) =
    let rest = wait_connect later in
    if writable then some (not so_error) else if exception then some false else rest

-- Connect: the sender, the open descriptors and the answer, or none while it waits.
unfoldable pub connect :
    Sender → OpenFds → Option ℕ → ConnectResult → List Select → Option (Sender × OpenFds × Bool)
connect s open_fds none result reports = some (record s { sockfd = none }, open_fds, false)
connect s open_fds (some fd) connected reports =
    some (record s { sockfd = some fd }, fd ∷ open_fds, true)
connect s open_fds (some fd) refused reports =
    some (record s { sockfd = some fd }, fd ∷ open_fds, false)
connect s open_fds (some fd) in_progress reports = elim (wait_connect reports) [
  | none ↦ none
  | some answer ↦ some (record s { sockfd = some fd }, fd ∷ open_fds, answer)
]

-- The request of Send. The port and the two numbers are the texts that sprintf makes of them.
unfoldable pub request_text : (domain port serial md5 xgps ygps : Bytes) → Bytes
request_text domain port serial md5 xgps ygps =
    codes "GET http://"
    ++ (domain
        ++ (codes ":"
            ++ (port
                ++ (codes "/api/navigate.api.php?serial="
                    ++ (serial
                        ++ (codes "&md5="
                            ++ (md5
                                ++ (codes "&xgps="
                                    ++ (xgps
                                        ++ (codes "&ygps="
                                            ++ (ygps
                                                ++ (codes " HTTP/1.1\r\nHost: "
                                                    ++ (domain
                                                        ++ (codes ":"
                                                            ++ (port
                                                            ++ codes
                                                            "\r\nConnection: keep-alive\r\nAccept: text/html;charset=utf-8\r\n User-Agent: Mozilla/5.0 (Windows NT 5.1) AppleWebKit/537.22 (KHTML, like Gecko) Chrome/25.0.1364.172 Safari/537.22 Accept-Encoding: gzip,deflate Accept-Language: zh;q=0.8,en-US;q=0.6,en;q=0.4 Accept-Charset: utf-8;q=0.7,*;q=0.3\r\n\r\n")))))))))))))))

-- sprintf into `data`, with its terminating NUL; the text is what is sent.
unfoldable pub send_request : (domain port serial md5 xgps ygps : Bytes) → Run Bytes
send_request domain port serial md5 xgps ygps =
    let text = request_text domain port serial md5 xgps ygps in
    if ltb (length text) data_size then ok text else fault out_of_bounds
