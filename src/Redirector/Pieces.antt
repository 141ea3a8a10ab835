-- ===== src/Redirector/Pieces.antt =====
-- Statements that the classes of src/redirector.cpp share.
use vpl_jail_system.Prelude.{
  ℕ, Bool, true, false, not, ◌&&◌, Option, none, some, List, [], ◌∷◌, Bytes, take, drop,
  if◌then◌else◌,
}
use vpl_jail_system.Redirector.{
  ending, Redirector, Revents, bad, ReadResult, got, failed_read, Action, sends, writes, closes,
  sleeps,
}
use vpl_jail_system.Redirector.Flow.{Flow, goes, to}

-- `if ((devices[0].revents & POLLBAD) && !(devices[0].revents & POLLREAD))`, the last statement.
unfoldable pub hang_up : Revents → Redirector → Flow
hang_up p r = if bad p && not p.read then to ending r else goes r []

-- read, and the bytes sent on to the client.
unfoldable pub forward : ReadResult → Redirector → Flow
forward (got []) r = to ending r
forward (got (c ∷ s)) r = goes r (sends (c ∷ s) ∷ [])
forward (failed_read eio) r = to ending r

abbrev pub is_empty : Bytes → Bool
is_empty [] = true
is_empty (c ∷ s) = false

-- write of the program's buffer, and of the server's: the bytes taken are erased.
unfoldable pub write_program : Option ℕ → Redirector → Flow
write_program none r = to ending r
write_program (some n) r =
    goes (record r { programbuf = drop n r.programbuf }) (writes (take n r.programbuf) ∷ [])

unfoldable pub write_server : Option ℕ → Redirector → Flow
write_server none r = to ending r
write_server (some n) r =
    goes (record r { netbuf = drop n r.netbuf }) (writes (take n r.netbuf) ∷ [])

-- The client is closed, or the loop waits if it is already.
abbrev pub close_client : Bool → List Action
close_client is_closed = (if is_closed then sleeps else closes) ∷ []
