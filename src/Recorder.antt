-- ===== src/Recorder.antt =====
-- response_writer.go: the recorder. The http.ResponseWriter under it is the parameter `Writer`; a
-- method that panics answers `panicked`. Sizes are numbers without a bound. ReadFrom, Push and the
-- methods that only pass a call on (deadlines, full duplex) are not here.

pub mod Watched
pub mod Truth
use fox.Prelude.{
  ℕ, ◌+◌, Bool, true, false, ◌&&◌, not, Option, none, some, List, [], ◌∷◌, ◌==◌, if◌then◌else◌,
  Bytes, leb,
}

pub data Done (A : Type 0) : Type 0 where
  returned : A → Done A
  panicked : Done A

-- What a writer of the chain that Unwrap walks can do.
pub data Layer : Type 0 where
  flushes_with_error flushes unwraps : Layer

-- A response writer of the server: its methods on its state, and the chain of writers below it.
pub record Writer (W E : Type 0) : Type 0 where
  pub write_header : W → ℕ → W × Done (Unit {0})
  pub write : W → Bytes → W × Done (ℕ × Option E)
  pub write_string : W → Bytes → W × Done (ℕ × Option E)
  pub chain : W → List Layer
  pub flush_error : W → W × Done (Option E)
  pub flush : W → W × Done (Unit {0})
  pub hijack : W → W × Done (Option E)

-- `none` is the size notWritten.
pub record Recorder (W : Type 0) : Type 0 where
  pub writer : W
  pub size : Option ℕ
  pub status : ℕ
  pub hijacked : Bool

-- http.ErrHijacked, http.ErrNotSupported, and the errors of the writer.
pub data WriteError (E : Type 0) : Type 0 where
  err_hijacked err_not_supported : WriteError E
  err_writer : E → WriteError E

abbrev pub wrapped : {E : Type 0} → Option E → Option (WriteError E)
wrapped none = none
wrapped (some e) = some (err_writer e)

-- 1xx, but for 101 Switching Protocols.
abbrev pub is_informational : ℕ → Bool
is_informational code = leb 100 code && leb code 199 && not (code == 101)

module _ {W : Type 0} where
  unfoldable pub reset : W → Recorder W
  reset w = record { writer = w; size = none; status = 200; hijacked = false }

  unfoldable pub is_written : Recorder W → Bool
  is_written r = elim r.size [ none ↦ false | some n ↦ true ]

  unfoldable pub size_of : Recorder W → ℕ
  size_of r = elim r.size [ none ↦ 0 | some n ↦ n ]

  -- The status and the size are recorded once the writer has returned.
  abbrev pub after_header : Recorder W → ℕ → W × Done (Unit {0}) → Recorder W × Done (Unit {0})
  after_header r code (w, panicked) = (record r { writer = w }, panicked)
  after_header r code (w, returned u) =
      (record r { writer = w; size = some 0; status = code }, returned u)

  abbrev pub after_informational : Recorder W → W × Done (Unit {0}) → Recorder W × Done (Unit {0})
  after_informational r (w, d) = (record r { writer = w }, d)

module _ {W E : Type 0} where
  unfoldable pub write_header : Writer W E → Recorder W → ℕ → Recorder W × Done (Unit {0})
  write_header o r code = if r.hijacked then (r, returned tt) else elim r.size [
    | some n ↦ (r, returned tt)
    | none ↦
        if is_informational code
        then after_informational r (o.write_header r.writer code)
        else after_header r code (o.write_header r.writer code)
  ]

  -- `r.size += n` after the call of the writer.
  abbrev pub after_write :
      Recorder W → ℕ → W × Done (ℕ × Option E) → Recorder W × Done (ℕ × Option (WriteError E))
  after_write r n (w, panicked) = (record r { writer = w }, panicked)
  after_write r n (w, returned (k, e)) =
      (record r { writer = w; size = some (n + k) }, returned (k, wrapped e))

  -- The implicit header is out; then the bytes are sent.
  abbrev pub after_status :
      (W → Bytes → W × Done (ℕ × Option E))
      → Recorder W
      → Bytes
      → W × Done (Unit {0})
      → Recorder W × Done (ℕ × Option (WriteError E))
  after_status send r bytes (w, panicked) = (record r { writer = w; size = some 0 }, panicked)
  after_status send r bytes (w, returned u) =
      after_write (record r { writer = w; size = some 0 }) 0 (send w bytes)

  -- Write and WriteString differ in the call that they pass on.
  unfoldable pub write_by :
      (W → Bytes → W × Done (ℕ × Option E))
      → Writer W E
      → Recorder W
      → Bytes
      → Recorder W × Done (ℕ × Option (WriteError E))
  write_by send o r bytes =
      if r.hijacked then (r, returned (0, some err_hijacked)) else elim r.size [
        | some n ↦ after_write r n (send r.writer bytes)
        | none ↦ after_status send r bytes (o.write_header r.writer r.status)
      ]

  unfoldable pub write :
      Writer W E → Recorder W → Bytes → Recorder W × Done (ℕ × Option (WriteError E))
  unfolding write_by
  write o = write_by o.write o

  unfoldable pub write_string :
      Writer W E → Recorder W → Bytes → Recorder W × Done (ℕ × Option (WriteError E))
  unfolding write_by
  write_string o = write_by o.write_string o

  -- The status is committed, and then the flusher is called.
  unfoldable pub commit : Writer W E → Recorder W → Recorder W × Done (Unit {0})
  unfolding write_header
  commit o r = elim r.size [ none ↦ write_header o r r.status | some n ↦ (r, returned tt) ]

  abbrev pub flushed :
      Recorder W × Done (Unit {0})
      → (Recorder W → Recorder W × Done (Option (WriteError E)))
      → Recorder W × Done (Option (WriteError E))
  flushed (r, panicked) next = (r, panicked)
  flushed (r, returned u) next = next r

  abbrev pub after_flush_error :
      Recorder W → W × Done (Option E) → Recorder W × Done (Option (WriteError E))
  after_flush_error r (w, panicked) = (record r { writer = w }, panicked)
  after_flush_error r (w, returned e) = (record r { writer = w }, returned (wrapped e))

  abbrev pub after_flush :
      Recorder W → W × Done (Unit {0}) → Recorder W × Done (Option (WriteError E))
  after_flush r (w, panicked) = (record r { writer = w }, panicked)
  after_flush r (w, returned u) = (record r { writer = w }, returned none)

  -- The loop of FlushError over the chain.
  unfoldable pub flush_by :
      List Layer → Writer W E → Recorder W → Recorder W × Done (Option (WriteError E))
  unfolding commit
  flush_by [] o r = (r, returned (some err_not_supported))
  flush_by (flushes_with_error ∷ ls) o r =
      flushed (commit o r) (λ q. after_flush_error q (o.flush_error q.writer))
  flush_by (flushes ∷ ls) o r = flushed (commit o r) (λ q. after_flush q (o.flush q.writer))
  flush_by (unwraps ∷ ls) o r = flush_by ls o r

  unfoldable pub flush_error : Writer W E → Recorder W → Recorder W × Done (Option (WriteError E))
  unfolding flush_by
  flush_error o r = flush_by (o.chain r.writer) o r

  -- The connection that Hijack hands over is not part of the recorder.
  abbrev pub after_hijack :
      Recorder W → W × Done (Option E) → Recorder W × Done (Option (WriteError E))
  after_hijack r (w, panicked) = (record r { writer = w }, panicked)
  after_hijack r (w, returned (some e)) = (record r { writer = w }, returned (some (err_writer e)))
  after_hijack r (w, returned none) =
      (record r { writer = w; size = some 0; hijacked = true }, returned none)

  unfoldable pub hijack : Writer W E → Recorder W → Recorder W × Done (Option (WriteError E))
  hijack o r = after_hijack r (o.hijack r.writer)
