-- ===== src/Redirector.antt =====
-- class Redirector of src/redirector.h and src/redirector.cpp: its fields and buffers. The classes that
-- inherit from it are Batch, Terminal, Vnc and WebServer.
pub mod Flow
pub mod Batch
pub mod Terminal
pub mod Vnc
pub mod WebServer
pub mod Pieces
pub mod Order
pub mod Rounds
pub mod Termination
pub mod Input
pub mod Runs
pub mod Output
pub mod Limits
use vpl_jail_system.Prelude.{
  ℕ, ◌+◌, ◌-◌, ◌*◌, ◌/◌, Bool, true, false, ◌||◌, Option, List, [], ◌∷◌, ◌++◌, Bytes, codes, length,
  take, drop, ltb, leb, if◌then◌else◌,
}
use vpl_jail_system.Util.Sizes.{bytes_to_mem_size}
use vpl_jail_system.Websocket.Frame.{frame_size_limit}

pub data States : Type 0 where
  begin connecting connected ending end error : States

pub record Redirector : Type 0 where
  pub message_buf : Bytes
  pub programbuf : Bytes
  pub netbuf : Bytes
  pub no_output : Bool
  pub output_buffer_cuted : Bool
  pub state : States

-- JAIL_OUTPUT_BUFFER_SIZE of src/jail_limits.h.
abbrev pub buffer_size_limit : ℕ
buffer_size_limit = 10 * 1024 * 1024

-- A redirector as a constructor of one of the classes leaves it.
abbrev pub new : Redirector
new = record {
  message_buf = [];
  programbuf = [];
  netbuf = [];
  no_output = true;
  output_buffer_cuted = false;
  state = begin;
}

unfoldable pub is_active : States → Bool
is_active error = false
is_active end = false
is_active begin = true
is_active connecting = true
is_active connected = true
is_active ending = true

unfoldable pub is_output_buffer_full : Redirector → Bool
is_output_buffer_full r = leb buffer_size_limit (length r.netbuf)

unfoldable pub add_message : Redirector → Bytes → Redirector
add_message r to_add =
    let start : Bytes = elim r.message_buf [ [] ↦ 13 ∷ 10 ∷ [] | c ∷ s ↦ c ∷ s ] in
    record r { message_buf = start ++ (codes "Jail: " ++ (to_add ++ (13 ∷ 10 ∷ []))) }

abbrev pub limit_str : Bytes
unfolding bytes_to_mem_size
limit_str = bytes_to_mem_size buffer_size_limit

abbrev pub cut_text : Bytes
cut_text =
    10
    ∷ (codes "=============== output cut to "
        ++ (limit_str ++ (codes " =============" ++ (10 ∷ []))))

-- The begin and the end of a text too large, and the notice between them.
unfoldable pub cut : Bytes → Bytes
cut overflow =
    let half = buffer_size_limit / 2 in
    take half overflow ++ (cut_text ++ take half (drop (length overflow - half) overflow))

-- The branch of addOutput for a buffer too large.
unfoldable pub cut_output : Redirector → Redirector
unfolding cut
cut_output r =
    if r.output_buffer_cuted
    then record r { netbuf = cut r.netbuf }
    else record (add_message (record r { netbuf = cut r.netbuf })
        (codes "program output has been limited to " ++ limit_str)) { output_buffer_cuted = true }

unfoldable pub add_output : Redirector → Bytes → Redirector
add_output r [] = r
add_output r (c ∷ s) =
    let r' = record r { no_output = false; netbuf = r.netbuf ++ (c ∷ s) } in
    if ltb (2 * buffer_size_limit) (length r.netbuf + length (c ∷ s)) then cut_output r' else r'

-- The redirector after the call, and the result.
unfoldable pub add_input : Redirector → Bytes → Redirector × Bool
add_input r to_add =
    if ltb frame_size_limit (length to_add + length r.programbuf)
    then (add_message r (codes "input buffer limit reached; terminal session closed."), false)
    else (record r { programbuf = r.programbuf ++ to_add }, true)

unfoldable pub add_vnc_input : Redirector → Bytes → Redirector × Bool
add_vnc_input r to_add =
    if ltb frame_size_limit (length to_add + length r.netbuf)
    then (r, false)
    else (record r { netbuf = r.netbuf ++ to_add }, true)

-- The bits of `revents` that the code tests: POLLREAD (POLLIN or POLLPRI), POLLOUT, POLLERR, POLLHUP
-- and POLLNVAL; POLLBAD is any of the last three.
pub record Revents : Type 0 where
  pub read : Bool
  pub out : Bool
  pub err : Bool
  pub hup : Bool
  pub nval : Bool

abbrev pub bad : Revents → Bool
bad p = p.err || (p.hup || p.nval)

-- The result of poll: -1, 0, or the events of its two devices (the second is not read for a batch).
pub data Poll : Type 0 where
  failed timed_out : Poll
  ready : Revents → Revents → Poll

-- The result of read: bytes (none at the end of the file), or an error, which is EIO or another.
pub data ReadResult : Type 0 where
  got : Bytes → ReadResult
  failed_read : Bool → ReadResult

-- What the system and the client's socket answer in one round of the loop of `advance`, where it asks.
pub record Round : Type 0 where
  -- `fdps >= 0`, or the success of `socket`.
  pub opened : Bool
  -- Whether the address of the web server has its form, and the success of `connect`.
  pub good_address : Bool
  pub connects : Bool
  -- `timeout < time(NULL)`.
  pub late : Bool
  -- isClosed, getHeaders, and `receive` where isReadBuffered holds, of the client.
  pub is_closed : Bool
  pub headers : Bytes
  pub buffered : Option Bytes
  pub polled : Poll
  pub readed : ReadResult
  -- `receive` of the client after poll.
  pub received : Bytes
  -- The bytes that `write` took, `none` where it returned 0 or an error.
  pub written : Option ℕ

-- A call on the client, on the program or the server: a message sent, bytes received and bytes written.
pub data Action : Type 0 where
  sends : Bytes → Action
  receives : Bytes → Action
  writes : Bytes → Action
  closes sleeps : Action
