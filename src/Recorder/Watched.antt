-- ===== src/Recorder/Watched.antt =====
-- A writer with a log of the calls that returned, and the calls of a handler on its recorder.
use fox.Prelude.{ℕ, ◌+◌, Option, List, [], ◌∷◌, if◌then◌else◌, Bytes}
use fox.Recorder.{
  Done, returned, panicked, Writer, Recorder, is_informational, write_header, write, write_string,
  flush_error, hijack,
}

-- What reached the client: the codes of the headers that are final, and the number of bytes.
pub record Log (W : Type 0) : Type 0 where
  pub inner : W
  pub finals : List ℕ
  pub sent : ℕ

module _ {W : Type 0} where
  abbrev pub log_header : Log W → ℕ → W × Done (Unit {0}) → Log W × Done (Unit {0})
  log_header l code (w, panicked) = (record l { inner = w }, panicked)
  log_header l code (w, returned u) = (
    record l { inner = w; finals = if is_informational code then l.finals else code ∷ l.finals },
    returned u,
  )

  abbrev pub log_bytes :
      {E : Type 0} → Log W → W × Done (ℕ × Option E) → Log W × Done (ℕ × Option E)
  log_bytes l (w, panicked) = (record l { inner = w }, panicked)
  log_bytes l (w, returned (n, e)) = (record l { inner = w; sent = l.sent + n }, returned (n, e))

  abbrev pub keep : {A : Type 0} → Log W → W × Done A → Log W × Done A
  keep l (w, d) = (record l { inner = w }, d)

abbrev pub watched : {W E : Type 0} → Writer W E → Writer (Log W) E
watched o = record {
  write_header = λ l code. log_header l code (o.write_header l.inner code);
  write = λ l b. log_bytes l (o.write l.inner b);
  write_string = λ l b. log_bytes l (o.write_string l.inner b);
  chain = λ l. o.chain l.inner;
  flush_error = λ l. keep l (o.flush_error l.inner);
  flush = λ l. keep l (o.flush l.inner);
  hijack = λ l. keep l (o.hijack l.inner);
}

-- The calls of a handler on its writer; a panic is recovered, and the handler may go on.
pub data Call : Type 0 where
  call_header : ℕ → Call
  call_write call_write_string : Bytes → Call
  call_flush call_hijack : Call

module _ {W E : Type 0} where
  unfoldable pub step : Writer W E → Recorder W → Call → Recorder W
  unfolding write_header write write_string flush_error hijack
  step o r (call_header code) = (write_header o r code).0
  step o r (call_write b) = (write o r b).0
  step o r (call_write_string b) = (write_string o r b).0
  step o r call_flush = (flush_error o r).0
  step o r call_hijack = (hijack o r).0

  unfoldable pub run : Writer W E → Recorder W → List Call → Recorder W
  unfolding step
  run o r [] = r
  run o r (c ∷ cs) = run o (step o r c) cs
