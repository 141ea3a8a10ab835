-- ===== src/Tests/Connections.antt =====
-- Runs of webSocket of src/websocket.cpp at concrete inputs.
use vpl_jail_system.Prelude.{Bytes, codes, refl, inl, true, false, some, [], arith, ◌+◌, ◌≡◌, ◌∷◌}
use vpl_jail_system.Utf8.{sequence_valid, valid_loop, is_valid_utf8}
use vpl_jail_system.Websocket.Frame.{ping_frame, pong_frame, encode_frame}
use vpl_jail_system.Websocket.Frame.RoundTrip.{client_frame}
use vpl_jail_system.Websocket.Connection.{sent}
use vpl_jail_system.Websocket.Connection.Closing.{
  flag, closes, receives, sends, closes_with, calls, calls-IsCounted,
}
use vpl_jail_system.Websocket.Connection.Fragments.{
  plain, receive_all, Fragment, continuations, receive_all-message, receive_all-ping_between,
}

abbrev key : Bytes
key = 0x37 ∷ 0xfa ∷ 0x21 ∷ 0x3d ∷ []

hello_valid : is_valid_utf8 (codes "Hello") ≡ true
unfolding is_valid_utf8 valid_loop sequence_valid
hello_valid = refl

abbrev other_key : Bytes
other_key = 1 ∷ 2 ∷ 3 ∷ 4 ∷ []

abbrev under : Bytes → Bytes → Fragment
under k text = record { key = k; payload = text }

receive_all-message_example :
    receive_all (plain false [] [] 0) (
      client_frame 1 key (codes "He")
      ∷ continuations (under other_key (codes "l") ∷ []) (under key (codes "lo")))
    ≡ some (record { state = plain false [] [] 1; actions = []; text = codes "Hello" })
receive_all-message_example =
    receive_all-message false (under key (codes "He")) (under key (codes "lo")) 0 refl refl
      (under other_key (codes "l") ∷ []) 1 (refl, tt) (omega arith) (inl (refl, hello_valid))

receive_all-ping_between_example :
    receive_all (plain false [] [] 0) (
      client_frame 1 key (codes "He")
      ∷ client_frame 0x89 other_key (codes "?")
      ∷ client_frame 0x80 key (codes "llo")
      ∷ [])
    ≡ some (record {
      state = plain false (codes "He") [] ping_frame;
      actions =
          sent (encode_frame false (codes "?") pong_frame)
          ∷ sent (encode_frame false (codes "llo") pong_frame)
          ∷ [];
      text = [];
    })
receive_all-ping_between_example =
    receive_all-ping_between false (under key (codes "He")) (under key (codes "llo")) 0 refl refl
      (under other_key (codes "?")) refl (omega arith) (omega arith) (omega arith)

calls-IsCounted_example :
    let r = calls (plain false [] [] 0) (
      sends (codes "Hi") 1
      ∷ closes_with (codes "Bye")
      ∷ receives (client_frame 0x88 key [])
      ∷ []) in
    closes r.1 + 0 ≡ flag r.0.close_sent
calls-IsCounted_example =
    calls-IsCounted (plain false [] [] 0)
      (sends (codes "Hi") 1 ∷ closes_with (codes "Bye") ∷ receives (client_frame 0x88 key []) ∷ [])
      ((omega arith, λ e. absurd (omega arith)), (tt, (tt, tt)))
