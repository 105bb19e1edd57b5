-- ===== src/TcpClient/Exchange.antt =====
-- tcp_client.cpp with tcp_server.cpp of TCP2fork and of TCP3pthread: what the client shows of what a child
-- or a thread of the server sends on its connection.
use study_code.Prelude.{
  ℕ, zero, suc, ◌<◌, ◌≡◌, ◌≢◌, refl, ap, ◌∙◌, true, false, [], ◌∷◌, ◌++◌, if◌then◌else◌, arith,
  length, take, length-take, ltb, lt→ltb,
}
use study_code.Prelude.Int.{ℤ, is_negative, is_positive}
use study_code.Text.{Text, utf8}
use study_code.Text.Split.{lacks, take-lacks}
use study_code.Sys.{Trace, send, same_fd, same_fd_refl}
use study_code.ForkServer.{Round, child}
use study_code.ThreadServer.{handle_client}
use study_code.TcpClient.{bytes, received, show_reply, conmmunicate}
use study_code.TcpClient.Answers.{show_reply_lem}

-- The bytes that a trace sends on a descriptor.
abbrev pub sent_on : ℤ → Trace → Text
sent_on fd [] = []
sent_on fd (send fd' sent ∷ trace) = (if same_fd fd fd' then sent else []) ++ sent_on fd trace
sent_on fd (_ ∷ trace) = sent_on fd trace

-- A part of a short answer is shown as it is.
shown_part :
    (k : ℕ) (answer : Text)
    → 0 < k
    → answer ≢ []
    → lacks 0 answer ≡ true
    → length answer < 1024
    → show_reply (bytes (take k answer)) ≡ received (take k answer) (length (take k answer))
shown_part k answer p n l s =
    let short : ltb (length (take k answer)) 1024 ≡ true =
      lt→ltb (length (take k answer)) 1024 (omega (arith, length-take k answer)) in
    show_reply_lem (take k answer) (some_taken k answer p n) (take-lacks k 0 answer l)
    ∙ rw short refl
  where
    some_taken : (k : ℕ) (answer : Text) → 0 < k → answer ≢ [] → take k answer ≢ []
    some_taken zero answer p n = absurd (omega arith)
    some_taken (suc k) [] p n = absurd (n refl)
    some_taken (suc k) (b ∷ bs) p n = λ e. ground (arith, e)

sent_on-child :
    (listen_fd : ℤ) (r : Round)
    → is_positive r.valread ≡ true
    → sent_on r.conn_fd (child listen_fd r) ≡ (utf8 "Server received your message!")
unfolding child utf8
sent_on-child listen_fd r h = rw (h, same_fd_refl r.conn_fd) refl

-- When the child of the forking server received something, the client shows exactly the bytes of
-- the server's answer that its `read` gave it, and their number, however many of them these are.
pub conmmunicate-child :
    (sock_fd listen_fd : ℤ) (message : Text) (r : Round) (k : ℕ)
    → is_positive r.valread ≡ true
    → 0 < k
    → (conmmunicate sock_fd message (bytes (take k (sent_on r.conn_fd (child listen_fd r))))).0
      ≡ received
          (take k (utf8 "Server received your message!"))
          (length (take k (utf8 "Server received your message!")))
unfolding conmmunicate utf8
conmmunicate-child sock_fd listen_fd message r k h p =
    ap (λ s. show_reply (bytes (take k s))) (sent_on-child listen_fd r h)
    ∙ shown_part k (utf8 "Server received your message!") p (λ e. ground (arith, e)) refl
        (omega arith)

sent_on-handle_client :
    (valread conn_fd : ℤ)
    → is_negative valread ≡ false
    → sent_on conn_fd (handle_client valread conn_fd) ≡ (utf8 "thread has received message")
unfolding handle_client utf8
sent_on-handle_client valread conn_fd h = rw (h, same_fd_refl conn_fd) refl

pub conmmunicate-handle_client :
    (sock_fd valread conn_fd : ℤ) (message : Text) (k : ℕ)
    → is_negative valread ≡ false
    → 0 < k
    → (conmmunicate sock_fd message
        (bytes (take k (sent_on conn_fd (handle_client valread conn_fd))))).0
      ≡ received
          (take k (utf8 "thread has received message"))
          (length (take k (utf8 "thread has received message")))
unfolding conmmunicate utf8
conmmunicate-handle_client sock_fd valread conn_fd message k h p =
    ap (λ s. show_reply (bytes (take k s))) (sent_on-handle_client valread conn_fd h)
    ∙ shown_part k (utf8 "thread has received message") p (λ e. ground (arith, e)) refl
        (omega arith)
