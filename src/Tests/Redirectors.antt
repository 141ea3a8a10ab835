-- ===== src/Tests/Redirectors.antt =====
-- Rounds of the redirectors of src/redirector.cpp at concrete inputs.
use vpl_jail_system.Prelude.{
  ◌≤◌, ◌*◌, ◌≡◌, refl, true, false, none, some, List, [], ◌∷◌, ◌++◌, codes, length, arith,
}
use vpl_jail_system.Redirector.Pieces.{write_program, hang_up}
use vpl_jail_system.Redirector.{
  add_input, is_output_buffer_full, Redirector, connected, begin, new, buffer_size_limit, Revents,
  ready, got, Round, Action,
}
use vpl_jail_system.Redirector.Flow.{advance_loop, rank}
use vpl_jail_system.Redirector.Terminal
use vpl_jail_system.Redirector.Termination.{vnc, step_of, advance_ends}
use vpl_jail_system.Redirector.Input.{received, written}
use vpl_jail_system.Redirector.Runs.{rounds, rounds-IsFifo}
use vpl_jail_system.Redirector.Output.{batch_rounds, batch_rounds-IsBounded}

abbrev both : Revents
both = record { read = true; out = true; err = false; hup = false; nval = false }

-- The program writes "hi", the client sends "ls", and the program takes one byte.
abbrev busy : Round
busy = record {
  opened = true;
  good_address = true;
  connects = true;
  late = false;
  is_closed = false;
  headers = [];
  buffered = none;
  polled = ready both both;
  readed = got (codes "hi");
  received = codes "ls";
  written = some 1;
}

abbrev live : Redirector
live = record new { state = connected; programbuf = codes "c" }

-- One byte is taken in each round, and three are left.
test_busy :
    let r = (rounds live (busy ∷ busy ∷ [])).0 in
    (r.state ≡ connected) × (r.programbuf ≡ codes "sls")
unfolding Terminal.step Terminal.in_state Terminal.connected_round Terminal.buffered_input
    Terminal.polled Terminal.events Terminal.read_program Terminal.send_output Terminal.read_client
    Terminal.take_input Terminal.write_input add_input is_output_buffer_full write_program hang_up
test_busy = (refl, refl)

rounds-IsFifo_example :
    written (rounds live (busy ∷ busy ∷ [])).1 ++ (rounds live (busy ∷ busy ∷ [])).0.programbuf
    ≡ codes "c" ++ received (rounds live (busy ∷ busy ∷ [])).1
rounds-IsFifo_example = rounds-IsFifo live (busy ∷ busy ∷ []) test_busy.0

advance_ends_example :
    (x : Redirector × List Action) × (advance_loop (step_of vnc) 6 (λ i. busy) new ≡ some x)
    × (rank begin ≤ rank x.0.state)
advance_ends_example = advance_ends vnc (λ i. busy) new

batch_rounds-IsBounded_example :
    length (batch_rounds live (busy ∷ busy ∷ [])).netbuf ≤ 2 * buffer_size_limit
batch_rounds-IsBounded_example = batch_rounds-IsBounded (busy ∷ busy ∷ []) live (omega arith)
