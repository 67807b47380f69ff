-- ===== src/Output/Bounds.antt =====
-- runtime/output.py: the bound on the bytes of a capture, through any writes.
use pyscripts.Base.{
  ℕ, zero, suc, ◌+◌, ◌-◌, ◌≤◌, ◌≡◌, refl, sym, ap, ◌∙◌, subst, Bool, ◌&&◌, ◌||◌, not, Option, none,
  some, [], ◌++◌, ltb, leb, length, arith, inl, inr, Bool-cases, Option-cases, if◌then◌else◌,
}
use pyscripts.Output.Utf8.{
  Text, utf8_length, take_utf8, take_utf8-le, take_utf8_all, is_empty, split_line, split_utf8,
}
use pyscripts.Output.{
  LogStream, CaptureBuffer, flush_stream, flush_pending, flush_part, flush_lines, flush_parts,
  switches, add_pending, append, is_stderr, store,
}
use pyscripts.Output.Captured.{
  tag, captured, tagged_bytes, tagged_bytes-append, tagged_bytes-tag, append-captured, Idle,
}

-- what the methods on chunks leave alone
abbrev pub Same : CaptureBuffer → CaptureBuffer → Type 0
Same c d =
    (d.max_bytes ≡ c.max_bytes)
    × (d.chunk_bytes ≡ c.chunk_bytes)
    × (d.capture_stderr ≡ c.capture_stderr)
    × (d.bytes ≡ c.bytes)
    × (d.truncated ≡ c.truncated)
    × (d.closed ≡ c.closed)

flush_stream-Same :
    (now : ℕ) (o : Option LogStream) (c : CaptureBuffer) → Same c (flush_stream now o c)
flush_stream-Same now none c = (refl, refl, refl, refl, refl, refl)
flush_stream-Same now (some s) c = (refl, refl, refl, refl, refl, refl)

pub flush_pending-Same : (now : ℕ) (c : CaptureBuffer) → Same c (flush_pending now c)
unfolding flush_pending
flush_pending-Same now c = elim (Bool-cases (is_empty c.pending_content)) [
  | inl e ↦ rw e (refl, refl, refl, refl, refl, refl)
  | inr e ↦ rw e (flush_stream-Same now c.pending_stream c)
]

trans-Same : (b c d : CaptureBuffer) → Same b c → Same c d → Same b d
trans-Same b c d (a1, a2, a3, a4, a5, a6) (b1, b2, b3, b4, b5, b6) =
    (b1 ∙ a1, b2 ∙ a2, b3 ∙ a3, b4 ∙ a4, b5 ∙ a5, b6 ∙ a6)

pub flush_part-Same :
    (now : ℕ) (s : LogStream) (at : ℕ) (p : Text × Text) (c : CaptureBuffer)
    → Same c (flush_part now s at p c)
unfolding flush_part
flush_part-Same now s at (part, rest) c =
    flush_pending-Same now (record c { pending_content = part })

pub flush_lines-Same :
    (fuel now : ℕ) (s : LogStream) (at : ℕ) (c : CaptureBuffer)
    → Same c (flush_lines fuel now s at c)
unfolding flush_lines
flush_lines-Same zero now s at c = (refl, refl, refl, refl, refl, refl)
flush_lines-Same (suc fuel) now s at c = elim (Option-cases (split_line c.pending_content)) [
  | inl e ↦ rw (flush_lines, e) (refl, refl, refl, refl, refl, refl)
  | inr (parts, e) ↦
      rw (flush_lines, e)
        (trans-Same c (flush_part now s at parts c)
          (flush_lines fuel now s at (flush_part now s at parts c))
          (flush_part-Same now s at parts c)
          (flush_lines-Same fuel now s at (flush_part now s at parts c)))
]

flush_parts-Same :
    (fuel now : ℕ) (s : LogStream) (at : ℕ) (c : CaptureBuffer)
    → Same c (flush_parts fuel now s at c)
unfolding flush_parts
flush_parts-Same zero now s at c = (refl, refl, refl, refl, refl, refl)
flush_parts-Same (suc fuel) now s at c =
    let parts = split_utf8 c.pending_content c.chunk_bytes in
    elim (Bool-cases (leb c.chunk_bytes (utf8_length c.pending_content))) [
      | inl e ↦
          rw (flush_parts, e)
            (trans-Same c (flush_part now s at parts c)
              (flush_parts fuel now s at (flush_part now s at parts c))
              (flush_part-Same now s at parts c)
              (flush_parts-Same fuel now s at (flush_part now s at parts c)))
      | inr e ↦ rw (flush_parts, e) (refl, refl, refl, refl, refl, refl)
    ]

pub add_pending-Same :
    (now : ℕ) (s : LogStream) (value : Text) (at : ℕ) (c : CaptureBuffer)
    → Same c (add_pending now s value at c)
unfolding add_pending
add_pending-Same now s value at c = elim (Bool-cases (switches c.pending_stream s)) [
  | inl e ↦ rw e (flush_pending-Same now c)
  | inr e ↦ rw e (refl, refl, refl, refl, refl, refl)
]

append-Same :
    (now : ℕ) (s : LogStream) (value : Text) (at : ℕ) (c : CaptureBuffer)
    → Same c (append now s value at c)
unfolding append
append-Same now s value at c =
    let d = add_pending now s value at c in
    let e = flush_lines (length d.pending_content) now s at d in
    let f = flush_parts (length e.pending_content) now s at e in
    trans-Same c d f (add_pending-Same now s value at c) (
      trans-Same d e f (flush_lines-Same (length d.pending_content) now s at d)
        (flush_parts-Same (length e.pending_content) now s at e))

-- The counter is the number of bytes held, and within the bound.
pub record Inv (c : CaptureBuffer) : Type 0 where
  pub counted : c.bytes ≡ tagged_bytes (captured c)
  pub bounded : c.bytes ≤ c.max_bytes
  pub idle : Idle c

-- the text that a write keeps: all of it, or the characters that fit in the bytes left
abbrev pub kept : LogStream → Text → CaptureBuffer → Text
kept s value c =
    if is_stderr s && not c.capture_stderr
    then []
    else if c.closed
    then []
    else take_utf8 (c.max_bytes - c.bytes) value

store-kept :
    (remaining : ℕ) (value : Text)
    → (if ltb remaining (utf8_length value) then take_utf8 remaining value else value)
      ≡ take_utf8 remaining value
store-kept remaining value = ground (arith, take_utf8_all remaining value)

-- `write_at` on a capture that takes the value
module _ (now : ℕ) (s : LogStream) (value : Text) (at : ℕ) (c : CaptureBuffer) (inv : Inv c) where
  abbrev fitting : Text
  fitting = take_utf8 (c.max_bytes - c.bytes) value

  abbrev marked : CaptureBuffer
  marked = record c { truncated = c.truncated || ltb (c.max_bytes - c.bytes) (utf8_length value) }

  store-eq : store now s value at (c.max_bytes - c.bytes) c ≡ (
      let d = append now s fitting at marked in record d { bytes = d.bytes + utf8_length fitting })
  unfolding store
  store-eq =
      ap (λ t. let d = append now s t at marked in record d { bytes = d.bytes + utf8_length t })
        (store-kept (c.max_bytes - c.bytes) value)

  abbrev pub Taken : Text → Bool → CaptureBuffer → Type 0
  Taken t cut d =
      (captured d ≡ captured c ++ tag s t)
      × Inv d
      × (d.max_bytes ≡ c.max_bytes)
      × (d.capture_stderr ≡ c.capture_stderr)
      × (d.closed ≡ c.closed)
      × (d.truncated ≡ (c.truncated || cut))

  pub store-Taken :
      Taken fitting
        (ltb (c.max_bytes - c.bytes) (utf8_length value))
        (store now s value at (c.max_bytes - c.bytes) c)
  store-Taken =
      let d = append now s fitting at marked in
      let cut = ltb (c.max_bytes - c.bytes) (utf8_length value) in
      let (held, stream) = append-captured now s fitting at marked inv.idle in
      let (m, _, e, b, t, k) = append-Same now s fitting at marked in
      let total : tagged_bytes (captured d) ≡ tagged_bytes (captured c) + utf8_length fitting =
        ap tagged_bytes held
        ∙ tagged_bytes-append (captured c) (tag s fitting)
        ∙ ap (λ n. tagged_bytes (captured c) + n) (tagged_bytes-tag s fitting) in
      let low = take_utf8-le (c.max_bytes - c.bytes) value in
      let full : Inv (record d { bytes = d.bytes + utf8_length fitting }) = record {
        counted = omega (arith, total, b, inv.counted);
        bounded = omega (arith, b, m, low, inv.bounded);
        idle = λ n. cc;
      } in
      subst (Taken fitting cut) (sym store-eq) (held, full, m, e, k, t)
