-- ===== src/Redirector/Output.antt =====
-- The bound of the output buffer of a batch in src/redirector.cpp.
use vpl_jail_system.Prelude.{
  ◌+◌, ◌-◌, ◌*◌, ◌/◌, ◌≤◌, ◌≡◌, refl, Bool, true, false, not, ◌&&◌, List, [], ◌∷◌, ◌++◌, Bytes,
  length, length-append, length-take, take, drop, ltb, if◌then◌else◌, arith, Bool-cases, inl, inr,
}
use vpl_jail_system.Redirector.{
  States, begin, connecting, connected, ending, end, error, Redirector, buffer_size_limit, cut,
  cut_text, limit_str, cut_output, add_output, add_message, Poll, failed, timed_out, ready,
  ReadResult, got, failed_read, Round,
}
use vpl_jail_system.Redirector.Flow.{Flow, leaves}
use vpl_jail_system.Redirector.Batch.{read_output, events, polled, connected_round, in_state, step}

length-cut_text : length cut_text ≡ 52
unfolding limit_str
length-cut_text = refl

length-cut : (s : Bytes) → length (cut s) ≤ 2 * buffer_size_limit
unfolding cut
length-cut s =
    let half = buffer_size_limit / 2 in
    let back = take half (drop (length s - half) s) in
    omega (
      arith,
      length-append (take half s) (cut_text ++ back),
      length-append cut_text back,
      length-take half s,
      length-take half (drop (length s - half) s),
      length-cut_text,
    )

abbrev pub IsBounded : Redirector → Type 0
IsBounded r = length r.netbuf ≤ 2 * buffer_size_limit

IsBounded-if :
    (b : Bool) (x y : Redirector) → IsBounded x → IsBounded y → IsBounded (if b then x else y)
IsBounded-if true x y hx hy = hx
IsBounded-if false x y hx hy = hy

cut_output-IsBounded : (r : Redirector) → IsBounded (cut_output r)
unfolding cut_output add_message
cut_output-IsBounded r =
    IsBounded-if r.output_buffer_cuted _ _ (length-cut r.netbuf) (length-cut r.netbuf)

add_output-IsBounded : (r : Redirector) (s : Bytes) → IsBounded r → IsBounded (add_output r s)
unfolding add_output
add_output-IsBounded r [] h = h
add_output-IsBounded r (c ∷ s) h =
    elim (Bool-cases (ltb (2 * buffer_size_limit) (length r.netbuf + length (c ∷ s)))) [
      | inl over ↦ rw over (cut_output-IsBounded _)
      | inr fits ↦
          let small : length r.netbuf + length (c ∷ s) ≤ 2 * buffer_size_limit = ground arith in
          rw fits (omega (arith, length-append r.netbuf (c ∷ s), small))
    ]

read_output-IsBounded :
    (d : ReadResult) (r : Redirector) → IsBounded r → IsBounded (leaves (read_output d r)).0
unfolding read_output
read_output-IsBounded (got []) r h = h
read_output-IsBounded (got (c ∷ s)) r h = add_output-IsBounded r (c ∷ s) h
read_output-IsBounded (failed_read true) r h = h
read_output-IsBounded (failed_read false) r h = h

leaves-if :
    (b : Bool) (x y : Flow)
    → IsBounded (leaves x).0
    → IsBounded (leaves y).0
    → IsBounded (leaves (if b then x else y)).0
leaves-if true x y hx hy = hx
leaves-if false x y hx hy = hy

polled-IsBounded :
    (o : Poll) (e : Round) (r : Redirector) → IsBounded r → IsBounded (leaves (polled o e r)).0
unfolding polled events
polled-IsBounded failed e r h = h
polled-IsBounded timed_out e r h = h
polled-IsBounded (ready p client) e r h = leaves-if p.err _ _ h (
    leaves-if p.nval _ _ h (
      leaves-if (p.hup && not p.read) _ _ h
        (leaves-if p.read _ _ (read_output-IsBounded e.readed r h) h)))

in_state-IsBounded :
    (s : States) (e : Round) (r : Redirector) → IsBounded r → IsBounded (in_state s e r).0
unfolding in_state connected_round
in_state-IsBounded begin e r h = leaves-if e.opened _ _ h h
in_state-IsBounded connecting e r h = h
in_state-IsBounded connected e r h = polled-IsBounded e.polled e r h
in_state-IsBounded ending e r h = h
in_state-IsBounded end e r h = h
in_state-IsBounded error e r h = h

-- The redirector of a batch behind some rounds, over any number of calls of `advance`.
abbrev pub batch_rounds : Redirector → List Round → Redirector
batch_rounds r [] = r
batch_rounds r (e ∷ es) = batch_rounds (step e r).0 es

-- However much a program writes, and whatever the system answers, the output buffer of a batch whose
-- buffer starts within twice the limit of the buffer stays within it.
pub batch_rounds-IsBounded :
    (es : List Round) (r : Redirector)
    → length r.netbuf ≤ 2 * buffer_size_limit
    → length (batch_rounds r es).netbuf ≤ 2 * buffer_size_limit
unfolding step
batch_rounds-IsBounded [] r h = h
batch_rounds-IsBounded (e ∷ es) r h =
    batch_rounds-IsBounded es (step e r).0 (in_state-IsBounded r.state e r h)
