-- ===== src/Output/Loops.antt =====
-- runtime/output.py: both loops of `_append` end, and what they leave pending.
use pyscripts.Base.{
  ℕ, zero, suc, ◌≤◌, ◌<◌, ◌≡◌, refl, ap, ◌∙◌, none, [], ◌∷◌, ◌++◌, leb, length, arith, inl, inr,
  Bool-cases, Option-cases,
}
use pyscripts.Output.Utf8.{
  Text, utf8_length, split_line, split_line-append, split_utf8, split_utf8-append, split_utf8-lt,
}
use pyscripts.Output.{
  LogStream, CaptureBuffer, flush_part, flush_lines, flush_parts, add_pending, append,
}
use pyscripts.Output.Bounds.{flush_part-Same, flush_lines-Same, add_pending-Same}

-- no newline
abbrev pub NoLine : Text → Type 0
NoLine t = split_line t ≡ none

suffix-NoLine : (t u : Text) → NoLine (t ++ u) → NoLine u
unfolding split_line
suffix-NoLine [] u h = h
suffix-NoLine (c ∷ t) u h =
    let later : NoLine (t ++ u) = elim (Option-cases (split_line (t ++ u))) [
      | inl e ↦ e
      | inr (p, e) ↦ ground arith
    ] in
    suffix-NoLine t u later

no_text : (t : Text) → length t ≤ 0 → NoLine t
unfolding split_line
no_text [] h = refl
no_text (c ∷ t) h = absurd (omega arith)

no_length : (t : Text) → length t ≤ 0 → utf8_length t ≡ 0
no_length [] h = refl
no_length (c ∷ t) h = absurd (omega arith)

pending_part :
    (now : ℕ) (s : LogStream) (at : ℕ) (part rest : Text) (c : CaptureBuffer)
    → (flush_part now s at (part, rest) c).pending_content ≡ rest
unfolding flush_part
pending_part now s at part rest c = refl

-- With as much fuel as there are characters, the first loop leaves no newline.
flush_lines-NoLine :
    (fuel now : ℕ) (s : LogStream) (at : ℕ) (c : CaptureBuffer)
    → length c.pending_content ≤ fuel
    → NoLine (flush_lines fuel now s at c).pending_content
unfolding flush_lines split_line
flush_lines-NoLine zero now s at c h = no_text c.pending_content h
flush_lines-NoLine (suc fuel) now s at c h = elim (Option-cases (split_line c.pending_content)) [
  | inl e ↦ rw (flush_lines, e) e
  | inr ((line, rest), e) ↦
      let (_, less, _) = split_line-append c.pending_content line rest e in
      rw (flush_lines, e)
        (flush_lines-NoLine fuel now s at (flush_part now s at (line, rest) c)
          (omega (arith, less, h, ap length (pending_part now s at line rest c))))
]

-- With as much fuel as there are characters and a positive limit, the second loop leaves less than
-- a chunk, of the end of the text.
flush_parts-lt :
    (fuel now : ℕ) (s : LogStream) (at : ℕ) (c : CaptureBuffer)
    → 1 ≤ c.chunk_bytes
    → length c.pending_content ≤ fuel
    → NoLine c.pending_content
    → (utf8_length (flush_parts fuel now s at c).pending_content < c.chunk_bytes)
      × NoLine (flush_parts fuel now s at c).pending_content
unfolding flush_parts
flush_parts-lt zero now s at c pos h free = (ground (arith, no_length c.pending_content h), free)
flush_parts-lt (suc fuel) now s at c pos h free =
    let parts = split_utf8 c.pending_content c.chunk_bytes in
    let next = flush_part now s at parts c in
    elim (Bool-cases (leb c.chunk_bytes (utf8_length c.pending_content))) [
      | inl e ↦
          let less = split_utf8-lt c.pending_content c.chunk_bytes pos (ground arith) in
          let same = pending_part now s at parts.0 parts.1 c in
          let (_, k, _, _, _, _) = flush_part-Same now s at parts c in
          let whole = split_utf8-append c.pending_content c.chunk_bytes in
          let (a, b) =
            flush_parts-lt fuel now s at next (omega (arith, k, pos))
              (omega (arith, less, h, ap length same))
              (ap split_line same ∙ suffix-NoLine parts.0 parts.1 (ap split_line whole ∙ free)) in
          rw (flush_parts, e) (omega (arith, a, k), b)
      | inr e ↦ rw (flush_parts, e) (ground arith, free)
    ]

-- After `_append` with a positive `chunk_bytes`, the pending text has no newline and less than
-- `chunk_bytes` bytes: every whole line and every full chunk is flushed.
pub append-pending :
    (now : ℕ) (s : LogStream) (value : Text) (at : ℕ) (c : CaptureBuffer)
    → 1 ≤ c.chunk_bytes
    → (utf8_length (append now s value at c).pending_content < c.chunk_bytes)
      × NoLine (append now s value at c).pending_content
unfolding append
append-pending now s value at c pos =
    let d = add_pending now s value at c in
    let e = flush_lines (length d.pending_content) now s at d in
    let (_, k1, _, _, _, _) = add_pending-Same now s value at c in
    let (_, k2, _, _, _, _) = flush_lines-Same (length d.pending_content) now s at d in
    let free = flush_lines-NoLine (length d.pending_content) now s at d (omega arith) in
    let (a, b) =
      flush_parts-lt (length e.pending_content) now s at e (omega (arith, k1, k2, pos))
        (omega arith) free in
    (omega (arith, a, k1, k2), b)
