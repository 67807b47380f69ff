-- ===== src/Output.antt =====
-- src/pyscripts/runtime/output.py: the bounded capture of a call's output.
-- A text is the list of its code points, without surrogates, which UTF-8 does not encode. `now` is
-- the clock that `_flush_pending` reads where no time is pending.
pub mod Utf8
pub mod Captured
pub mod Bounds
pub mod History
pub mod Loops
mod Tests
use pyscripts.Base.{
  ℕ, zero, suc, ◌+◌, ◌-◌, Bool, true, false, ◌&&◌, ◌||◌, not, Option, none, some, List, [], ◌∷◌,
  ◌++◌, ltb, leb, ◌==◌, length, if◌then◌else◌,
}
use pyscripts.Output.Utf8.{Text, utf8_length, take_utf8, drop, is_empty, split_line, split_utf8}

pub data LogStream : Type 0 where
  stdout stderr : LogStream

-- an entry of `_chunks`
pub record Chunk : Type 0 where
  pub stream : LogStream
  pub content : Text
  pub emitted_at : ℕ

pub record CapturedLogChunk : Type 0 where
  pub sequence : ℕ
  pub stream : LogStream
  pub content : Text
  pub emitted_at : ℕ

pub record CaptureBuffer : Type 0 where
  pub max_bytes : ℕ
  pub chunk_bytes : ℕ
  pub capture_stderr : Bool
  pub chunks : List Chunk
  pub pending_stream : Option LogStream
  pub pending_content : Text
  pub pending_at : Option ℕ
  pub bytes : ℕ
  pub truncated : Bool
  pub closed : Bool

-- `CaptureBuffer(max_bytes, chunk_bytes, capture_stderr)`
abbrev pub new_buffer : ℕ → ℕ → Bool → CaptureBuffer
new_buffer max_bytes chunk_bytes capture_stderr = record {
  max_bytes = max_bytes;
  chunk_bytes = chunk_bytes;
  capture_stderr = capture_stderr;
  chunks = [];
  pending_stream = none;
  pending_content = [];
  pending_at = none;
  bytes = 0;
  truncated = false;
  closed = false;
}

abbrev pub cleared : CaptureBuffer → CaptureBuffer
cleared c = record c { pending_stream = none; pending_content = []; pending_at = none }

abbrev pub time_or : Option ℕ → ℕ → ℕ
time_or none now = now
time_or (some t) now = t

abbrev pub pending_chunk : ℕ → LogStream → CaptureBuffer → Chunk
pending_chunk now s c = record {
  stream = s;
  content = c.pending_content;
  emitted_at = time_or c.pending_at now;
}

abbrev pub flush_stream : ℕ → Option LogStream → CaptureBuffer → CaptureBuffer
flush_stream now none c = cleared c
flush_stream now (some s) c = cleared (record c { chunks = c.chunks ++ pending_chunk now s c ∷ [] })

unfoldable pub flush_pending : ℕ → CaptureBuffer → CaptureBuffer
flush_pending now c =
    if is_empty c.pending_content then cleared c else flush_stream now c.pending_stream c

-- the last three assignments of both loops of `_append`
abbrev pub restart : LogStream → ℕ → Text → CaptureBuffer → CaptureBuffer
restart s at rest c = record c {
  pending_stream = some s;
  pending_content = rest;
  pending_at = if is_empty rest then none else some at;
}

-- a turn of a loop: `part` is flushed, and `rest` stays
pub flush_part : ℕ → LogStream → ℕ → Text × Text → CaptureBuffer → CaptureBuffer
unfolding flush_pending
flush_part now s at (part, rest) c =
    restart s at rest (flush_pending now (record c { pending_content = part }))

-- the first loop: while there is a newline
unfoldable pub flush_lines : ℕ → ℕ → LogStream → ℕ → CaptureBuffer → CaptureBuffer
unfolding split_line flush_part
flush_lines zero now s at c = c
flush_lines (suc fuel) now s at c = elim (split_line c.pending_content) [
  | none ↦ c
  | some parts ↦ flush_lines fuel now s at (flush_part now s at parts c)
]

-- the second loop: while a chunk is full
unfoldable pub flush_parts : ℕ → ℕ → LogStream → ℕ → CaptureBuffer → CaptureBuffer
unfolding split_utf8 flush_part
flush_parts zero now s at c = c
flush_parts (suc fuel) now s at c = elim (leb c.chunk_bytes (utf8_length c.pending_content)) [
  | false ↦ c
  | true ↦
      flush_parts fuel now s at (flush_part now s at (split_utf8 c.pending_content c.chunk_bytes) c)
]

abbrev pub same_stream : LogStream → LogStream → Bool
same_stream stdout stdout = true
same_stream stderr stderr = true
same_stream _ _ = false

abbrev pub switches : Option LogStream → LogStream → Bool
switches none s = false
switches (some t) s = not (same_stream t s)

-- the assignments before the loops
pub add_pending : ℕ → LogStream → Text → ℕ → CaptureBuffer → CaptureBuffer
unfolding flush_pending
add_pending now s value at c =
    let d = if switches c.pending_stream s then flush_pending now c else c in
    record d {
      pending_stream = some s;
      pending_content = d.pending_content ++ value;
      pending_at = some at;
    }

unfoldable pub append : ℕ → LogStream → Text → ℕ → CaptureBuffer → CaptureBuffer
unfolding add_pending flush_lines flush_parts
append now s value at c =
    let d = add_pending now s value at c in
    let e = flush_lines (length d.pending_content) now s at d in
    flush_parts (length e.pending_content) now s at e

abbrev pub is_stderr : LogStream → Bool
is_stderr stdout = false
is_stderr stderr = true

-- the end of `write_at`, with `remaining` bytes left
pub store : ℕ → LogStream → Text → ℕ → ℕ → CaptureBuffer → CaptureBuffer
unfolding append
store now s value at remaining c =
    let cut = ltb remaining (utf8_length value) in
    let kept = if cut then take_utf8 remaining value else value in
    let d = append now s kept at (record c { truncated = c.truncated || cut }) in
    record d { bytes = d.bytes + utf8_length kept }

unfoldable pub write_at : ℕ → LogStream → Text → ℕ → CaptureBuffer → ℕ × CaptureBuffer
unfolding store
write_at now s value at c =
    let remaining = c.max_bytes - c.bytes in
    if is_empty value
    then (0, c)
    else if is_stderr s && not c.capture_stderr
    then (length value, c)
    else if c.closed
    then (length value, c)
    else if remaining == 0
    then (length value, record c { truncated = true })
    else (length value, store now s value at remaining c)

unfoldable pub close : ℕ → CaptureBuffer → CaptureBuffer
unfolding flush_pending
close now c = record (flush_pending now c) { closed = true }

-- `enumerate(self._chunks)`, from an index on
pub number : ℕ → List Chunk → List CapturedLogChunk
number i [] = []
number i (k ∷ ks) =
    record { sequence = i; stream = k.stream; content = k.content; emitted_at = k.emitted_at }
    ∷ number (suc i) ks

unfoldable pub snapshot : ℕ → CaptureBuffer → (List CapturedLogChunk × ℕ × Bool) × CaptureBuffer
unfolding flush_pending number
snapshot now c = let d = flush_pending now c in ((number 0 d.chunks, d.bytes, d.truncated), d)
