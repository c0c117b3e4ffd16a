-- ===== src/Recorder/Truth.antt =====
-- What the recorder reports, against what it has sent, over any writer.
use fox.Prelude.{
  ℕ, ◌+◌, ◌≡◌, ◌⊎◌, inl, inr, refl, ap, Bool, true, false, Option, none, some, List, [], ◌∷◌, Bytes,
  Bool-cases,
}
use fox.Recorder.{
  Done, WriteError, returned, panicked, Layer, flushes_with_error, flushes, unwraps, Writer,
  Recorder, reset, is_informational, after_header, write_header, after_write, write_by, write,
  write_string, commit, flushed, after_informational, after_status, after_flush_error, after_flush,
  after_hijack, flush_by, flush_error, hijack,
}
use fox.Recorder.Watched.{
  Log, log_header, log_bytes, keep, watched, Call, call_header, call_write, call_write_string,
  call_flush, call_hijack, step, run,
}

-- Nothing is sent before the size is recorded; then at most one final header has been sent, with
-- the recorded status; and until a hijack the size is the number of bytes sent.
abbrev IsTruthfulWhen : {W : Type 0} → Bool → Option ℕ → ℕ → Log W → Type 0
IsTruthfulWhen hj none status l = (hj ≡ false) × (l.finals ≡ []) × (l.sent ≡ 0) × (status ≡ 200)
IsTruthfulWhen false (some n) status l = ((l.finals ≡ []) ⊎ (l.finals ≡ status ∷ [])) × (l.sent ≡ n)
IsTruthfulWhen true (some n) status l = (l.finals ≡ []) ⊎ (l.finals ≡ status ∷ [])

abbrev pub IsTruthful : {W : Type 0} → Recorder (Log W) → Type 0
IsTruthful r = IsTruthfulWhen r.hijacked r.size r.status r.writer

abbrev with_log : {W : Type 0} → Option ℕ → ℕ → Bool → Log W → Recorder (Log W)
with_log size status hj l = record { writer = l; size = size; status = status; hijacked = hj }

module _ {W : Type 0} where
  -- A first final header.
  after_header-IsTruthful :
      (l : Log W) (status code : ℕ) (c : W × Done (Unit {0}))
      → is_informational code ≡ false
      → IsTruthfulWhen false none status l
      → IsTruthful (after_header (with_log none status false l) code (log_header l code c)).0
  after_header-IsTruthful l status code (w, panicked) e h = h
  after_header-IsTruthful l status code (w, returned u) e (hj, f, s, t) =
      rw e (inr (ap (λ r. code ∷ r) f), s)

  after_informational-IsTruthful :
      (l : Log W) (status code : ℕ) (c : W × Done (Unit {0}))
      → is_informational code ≡ true
      → IsTruthfulWhen false none status l
      → IsTruthful (after_informational (with_log none status false l) (log_header l code c)).0
  after_informational-IsTruthful l status code (w, panicked) e h = h
  after_informational-IsTruthful l status code (w, returned u) e h = rw e h

module _ {W E : Type 0} where
  after_write-IsTruthful :
      (l : Log W) (status n : ℕ) (c : W × Done (ℕ × Option E))
      → IsTruthfulWhen false (some n) status l
      → IsTruthful (after_write (with_log (some n) status false l) n (log_bytes l c)).0
  after_write-IsTruthful l status n (w, panicked) h = h
  after_write-IsTruthful l status n (w, returned (k, e)) (f, s) = (f, ap (λ m. m + k) s)

  after_status-IsTruthful :
      (send : W → Bytes → W × Done (ℕ × Option E)) (l : Log W) (b : Bytes) (c : W × Done (Unit {0}))
      → IsTruthfulWhen false none 200 l
      → IsTruthful
          (after_status
            (λ m x. log_bytes m (send m.inner x))
            (with_log none 200 false l)
            b
            (log_header l 200 c)).0
  after_status-IsTruthful send l b (w, panicked) (hj, f, s, t) = (inl f, s)
  after_status-IsTruthful send l b (w, returned u) (hj, f, s, t) =
      after_write-IsTruthful (record l { inner = w; finals = 200 ∷ l.finals }) 200 0 (send w b)
        (inr (ap (λ r. 200 ∷ r) f), s)

IsTruthful-inner :
    {W : Type 0} (hj : Bool) (size : Option ℕ) (status : ℕ) (l : Log W) (w : W)
    → IsTruthfulWhen hj size status l
    → IsTruthfulWhen hj size status (record l { inner = w })
IsTruthful-inner hj none status l w h = h
IsTruthful-inner false (some n) status l w h = h
IsTruthful-inner true (some n) status l w h = h

module _ {W E : Type 0} where
  after_flush_error-IsTruthful :
      (r : Recorder (Log W)) (c : W × Done (Option E))
      → IsTruthful r
      → IsTruthful (after_flush_error r (keep r.writer c)).0
  after_flush_error-IsTruthful r (w, panicked) h =
      IsTruthful-inner r.hijacked r.size r.status r.writer w h
  after_flush_error-IsTruthful r (w, returned e) h =
      IsTruthful-inner r.hijacked r.size r.status r.writer w h

  after_hijack-IsTruthful :
      (hj : Bool) (size : Option ℕ) (status : ℕ) (l : Log W) (c : W × Done (Option E))
      → IsTruthfulWhen hj size status l
      → IsTruthful (after_hijack (with_log size status hj l) (keep l c)).0
  after_hijack-IsTruthful hj size status l (w, panicked) h = IsTruthful-inner hj size status l w h
  after_hijack-IsTruthful hj size status l (w, returned (some e)) h =
      IsTruthful-inner hj size status l w h
  after_hijack-IsTruthful hj none status l (w, returned none) h = inl h.1
  after_hijack-IsTruthful false (some n) status l (w, returned none) h = h.0
  after_hijack-IsTruthful true (some n) status l (w, returned none) h = h

module _ {W E : Type 0} (o : Writer W E) where
  after_flush-IsTruthful :
      (r : Recorder (Log W)) (c : W × Done (Unit {0}))
      → IsTruthful r
      → IsTruthful (after_flush {E = E} r (keep r.writer c)).0
  after_flush-IsTruthful r (w, panicked) h =
      IsTruthful-inner r.hijacked r.size r.status r.writer w h
  after_flush-IsTruthful r (w, returned u) h =
      IsTruthful-inner r.hijacked r.size r.status r.writer w h

  write_header-IsTruthful :
      (l : Log W) (size : Option ℕ) (status : ℕ) (hj : Bool) (code : ℕ)
      → IsTruthfulWhen hj size status l
      → IsTruthful (write_header (watched o) (with_log size status hj l) code).0
  unfolding write_header
  write_header-IsTruthful l none status true code h = h
  write_header-IsTruthful l (some n) status true code h = h
  write_header-IsTruthful l (some n) status false code h = h
  write_header-IsTruthful l none status false code h = elim (Bool-cases (is_informational code)) [
    | inl e ↦
        rw (write_header, e)
          (after_informational-IsTruthful l status code (o.write_header l.inner code) e h)
    | inr e ↦
        rw (write_header, e)
          (after_header-IsTruthful l status code (o.write_header l.inner code) e h)
  ]

  write_by-IsTruthful :
      (send : W → Bytes → W × Done (ℕ × Option E)) (l : Log W) (size : Option ℕ) (status : ℕ)
      (hj : Bool) (b : Bytes)
      → IsTruthfulWhen hj size status l
      → IsTruthful
          (write_by
            (λ m x. log_bytes m (send m.inner x))
            (watched o)
            (with_log size status hj l)
            b).0
  unfolding write_by
  write_by-IsTruthful send l none status true b h = h
  write_by-IsTruthful send l (some n) status true b h = h
  write_by-IsTruthful send l (some n) status false b h =
      after_write-IsTruthful l status n (send l.inner b) h
  write_by-IsTruthful send l none status false b (hj, f, s, t) =
      rw t (after_status-IsTruthful send l b (o.write_header l.inner 200) (hj, f, s, refl))

  commit-IsTruthful :
      (l : Log W) (size : Option ℕ) (status : ℕ) (hj : Bool)
      → IsTruthfulWhen hj size status l
      → IsTruthful (commit (watched o) (with_log size status hj l)).0
  unfolding commit
  commit-IsTruthful l none status hj h = write_header-IsTruthful l none status hj status h
  commit-IsTruthful l (some n) status hj h = h

  flushed-IsTruthful :
      (c : Recorder (Log W) × Done (Unit {0}))
      (next : Recorder (Log W) → Recorder (Log W) × Done (Option (WriteError E)))
      → IsTruthful c.0
      → ((r : Recorder (Log W)) → IsTruthful r → IsTruthful (next r).0)
      → IsTruthful (flushed c next).0
  flushed-IsTruthful (r, panicked) next h f = h
  flushed-IsTruthful (r, returned u) next h f = f r h

  flush_by-IsTruthful :
      (ls : List Layer) (r : Recorder (Log W))
      → IsTruthful r
      → IsTruthful (flush_by ls (watched o) r).0
  unfolding flush_by
  flush_by-IsTruthful [] r h = h
  flush_by-IsTruthful (flushes_with_error ∷ ls) r h =
      flushed-IsTruthful (commit (watched o) r) _
        (commit-IsTruthful r.writer r.size r.status r.hijacked h)
        (λ q k. after_flush_error-IsTruthful q (o.flush_error q.writer.inner) k)
  flush_by-IsTruthful (flushes ∷ ls) r h =
      flushed-IsTruthful (commit (watched o) r) _
        (commit-IsTruthful r.writer r.size r.status r.hijacked h)
        (λ q k. after_flush-IsTruthful q (o.flush q.writer.inner) k)
  flush_by-IsTruthful (unwraps ∷ ls) r h = flush_by-IsTruthful ls r h

  step-IsTruthful :
      (r : Recorder (Log W)) (c : Call) → IsTruthful r → IsTruthful (step (watched o) r c)
  unfolding step write write_string flush_error hijack
  step-IsTruthful r (call_header code) h =
      write_header-IsTruthful r.writer r.size r.status r.hijacked code h
  step-IsTruthful r (call_write b) h =
      write_by-IsTruthful o.write r.writer r.size r.status r.hijacked b h
  step-IsTruthful r (call_write_string b) h =
      write_by-IsTruthful o.write_string r.writer r.size r.status r.hijacked b h
  step-IsTruthful r call_flush h = flush_by-IsTruthful (o.chain r.writer.inner) r h
  step-IsTruthful r call_hijack h =
      after_hijack-IsTruthful r.hijacked r.size r.status r.writer (o.hijack r.writer.inner) h

  run-IsTruthful :
      (r : Recorder (Log W)) (cs : List Call) → IsTruthful r → IsTruthful (run (watched o) r cs)
  unfolding run
  run-IsTruthful r [] h = h
  run-IsTruthful r (c ∷ cs) h = run-IsTruthful (step (watched o) r c) cs (step-IsTruthful r c h)

  -- After any calls of a handler on a reset recorder, over any writer: while nothing is recorded as
  -- written, nothing has been sent; else at most one final header has been sent, with the status
  -- that the recorder reports, and, unless the connection was hijacked, as many bytes as its size.
  pub reset-IsTruthful :
      (w : W) (cs : List Call)
      → IsTruthful (run (watched o) (reset (record { inner = w; finals = []; sent = 0 })) cs)
  unfolding reset
  reset-IsTruthful w cs = run-IsTruthful _ cs (refl, refl, refl, refl)
