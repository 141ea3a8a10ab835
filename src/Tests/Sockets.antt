-- ===== src/Tests/Sockets.antt =====
-- Calls of Socket::send, receive and processHeaders of src/socket.cpp at concrete inputs.
use vpl_jail_system.Jail.Access.{to_upper, to_uppercase}
use vpl_jail_system.Prelude.Maps.{bytes_eq, nat_eq, insert}
use vpl_jail_system.Socket.Headers.{
  get_line, word_and_space, request_line, header_line, parse_header, parse_request_line,
  header_loop, first_line, process_headers,
}
use vpl_jail_system.Socket.Headers.Lines.{Headers}
use vpl_jail_system.Socket.Headers.Target.{Target, print_query, print_origin, IsOrigin}
use vpl_jail_system.Socket.Headers.Reading.{Reads, print_request, process_headers-Reads}
use vpl_jail_system.Socket.Receive.{
  gets, ReceiveRound, returns, take_bytes, read_net, ready_round, polled_round, receive_round,
  receive_loop, receive,
}
use vpl_jail_system.Socket.Receive.Reading.{held, Gives, receive-Gives}
use vpl_jail_system.Socket.Receive.Enough.{receive-enough}
use vpl_jail_system.Prelude.{codes, length, refl, true, false, none, some, [], arith, ◌≤◌, ◌≡◌, ◌∷◌}
use vpl_jail_system.Socket.{
  Socket, timed_out, ready, takes, SendRound, send_round, returned, waiting, send_loop, send,
}
use vpl_jail_system.Socket.Sending.{Delivers, send-Delivers}
use vpl_jail_system.Socket.Progress.{IsWriting, send-writes}

abbrev fresh : Socket
fresh = record {
  closed = false;
  websocket_protocol = true;
  header = [];
  read_buffer = [];
  write_buffer = codes "a";
}

-- poll reports that one byte can be written.
abbrev one_byte : SendRound
one_byte = record {
  polled = ready;
  late = false;
  out = true;
  hup = false;
  bad = false;
  write = takes 1;
}

abbrev nothing : SendRound
nothing = record one_byte { polled = timed_out; late = true }

send-Delivers_example :
    Delivers false
      (codes "abc")
      (send fresh (codes "bc") false (one_byte ∷ one_byte ∷ one_byte ∷ []))
send-Delivers_example =
    send-Delivers fresh (codes "bc") false (one_byte ∷ one_byte ∷ one_byte ∷ []) refl

send-writes_example :
    send fresh (codes "bc") false (one_byte ∷ one_byte ∷ one_byte ∷ [])
    ≡ returned (record fresh { write_buffer = [] }) (codes "abc")
send-writes_example =
    let good : IsWriting one_byte = (refl, refl, refl, refl, refl, (1, omega arith, refl)) in
    send-writes fresh (codes "bc") false (one_byte ∷ one_byte ∷ one_byte ∷ []) refl (omega arith)
      (omega arith) (good, (good, (good, tt)))

-- poll answers 0 and the time is over.
test_waits : send fresh (codes "bc") false (nothing ∷ nothing ∷ []) ≡ waiting
unfolding send send_loop send_round
test_waits = refl

-- A header that was read, and a byte behind it.
abbrev opened : Socket
opened = record fresh { header = codes "GET / HTTP/1.1\r\n\r\n"; read_buffer = codes "a" }

abbrev two_bytes : ReceiveRound
two_bytes = record {
  polled = ready;
  late = false;
  inp = true;
  hup = false;
  bad = false;
  read = gets (codes "bc");
}

receive-Gives_example : Gives (held opened) (receive (λ _. true) opened 3 (two_bytes ∷ []))
receive-Gives_example = receive-Gives (λ _. true) opened 3 (two_bytes ∷ [])

received :
    receive (λ _. true) opened 3 (two_bytes ∷ [])
    ≡ returns (record opened { read_buffer = [] }) (codes "abc") (codes "bc")
unfolding receive receive_loop receive_round polled_round ready_round read_net take_bytes
received = refl

receive-enough_example : 3 ≤ length (codes "abc")
receive-enough_example =
    receive-enough (λ _. true) opened (record opened { read_buffer = [] }) 3 (two_bytes ∷ [])
      (codes "abc") (codes "bc") (omega arith) (omega arith) received refl

abbrev two_hosts : Headers
two_hosts = (codes "Host", codes "a") ∷ (codes "HOST", codes "b") ∷ []

-- h://a/ok?x=1
abbrev absolute : Target
absolute = record {
  origin = some (codes "h", codes "a");
  behind_slash = codes "ok";
  query = some (codes "x=1");
}

process_headers-Reads_example :
    Reads
      (codes "GET")
      absolute
      (codes "HTTP/1.1")
      (codes "host")
      two_hosts
      (process_headers (print_request (codes "GET") absolute (codes "HTTP/1.1") two_hosts []) [])
process_headers-Reads_example =
    process_headers-Reads (codes "GET") absolute (codes "HTTP/1.1") two_hosts [] (codes "host")
      ((refl, (refl, (refl, tt))), (refl, (refl, (refl, tt))))
      (unfold print_origin print_query in
        (
          (
            refl,
            (
              refl,
              (refl, (refl, (refl, (refl, (refl, (refl, (refl, (refl, (refl, (refl, tt)))))))))),
            ),
          ),
          (
            refl,
            (
              refl,
              (refl, (refl, (refl, (refl, (refl, (refl, (refl, (refl, (refl, (refl, tt)))))))))),
            ),
          ),
        ))
      (
        (refl, (refl, (refl, (refl, (refl, (refl, (refl, (refl, tt)))))))),
        (refl, (refl, (refl, (refl, (refl, (refl, (refl, (refl, tt)))))))),
      )
      (record { origin = unfold IsOrigin in ((refl, tt), (refl, tt)); path = (refl, (refl, tt)) })
      (
        (
          ((refl, (refl, (refl, (refl, tt)))), (refl, (refl, (refl, (refl, tt))))),
          (refl, (refl, tt)),
        ),
        (
          (
            ((refl, (refl, (refl, (refl, tt)))), (refl, (refl, (refl, (refl, tt))))),
            (refl, (refl, tt)),
          ),
          tt,
        ),
      )

test_root :
    process_headers (codes "GET / HTTP/1.1\r\n\r\n") []
    ≡ some (record {
      method = codes "GET";
      url = codes "/";
      version = codes "HTTP/1.1";
      protocol = [];
      url_path = codes "/";
      query_string = [];
      headers = [];
    })
unfolding process_headers first_line get_line parse_request_line request_line word_and_space
    header_loop
test_root = refl

test_headers :
    process_headers (codes "\nGET http://a/b?c=d HTTP/1.1\r\nA:\t1\nb-c: 2\r\n\r\n") []
    ≡ some (record {
      method = codes "GET";
      url = codes "http://a/b?c=d";
      version = codes "HTTP/1.1";
      protocol = codes "http";
      url_path = codes "/b";
      query_string = codes "c=d";
      headers = (codes "A", codes "1") ∷ (codes "B-C", codes "2") ∷ [];
    })
unfolding to_upper process_headers first_line get_line parse_request_line request_line
    word_and_space header_loop parse_header header_line to_uppercase insert
test_headers = refl

-- A space in front of the colon, which regHeader does not match.
test_bad_header : process_headers (codes "GET / HTTP/1.1\r\nA : 1\r\n\r\n") [] ≡ none
unfolding process_headers first_line get_line parse_request_line request_line word_and_space
    header_loop parse_header header_line
test_bad_header = refl
