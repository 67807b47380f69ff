-- ===== src/Output/Captured.antt =====
-- runtime/output.py: a capture holds what was written, in order, up to its bound.
use pyscripts.Base.{
  ℕ, zero, suc, ◌+◌, ◌≡◌, refl, sym, ap, ◌∙◌, true, false, Option, none, some, List, [], ◌∷◌, ◌++◌,
  append-nil, append_assoc, leb, length, arith, inl, inr, Bool-cases, Option-cases,
}
use pyscripts.Output.Utf8.{
  Text, utf8_length, is_empty, split_line, split_line-append, split_utf8, split_utf8-append,
}
use pyscripts.Output.{
  LogStream, Chunk, CaptureBuffer, pending_chunk, flush_stream, flush_pending, flush_part,
  flush_lines, flush_parts, same_stream, stdout, stderr, switches, add_pending, append,
}

-- characters with the stream that they were written to
abbrev pub Tagged : Type 0
Tagged = List (LogStream × ℕ)

abbrev pub tag : LogStream → Text → Tagged
tag s [] = []
tag s (c ∷ t) = (s, c) ∷ tag s t

abbrev pub tagged_chunks : List Chunk → Tagged
tagged_chunks [] = []
tagged_chunks (k ∷ ks) = tag k.stream k.content ++ tagged_chunks ks

abbrev pub tagged_pending : Option LogStream → Text → Tagged
tagged_pending none t = []
tagged_pending (some s) t = tag s t

-- everything that a capture holds
abbrev pub captured : CaptureBuffer → Tagged
captured c = tagged_chunks c.chunks ++ tagged_pending c.pending_stream c.pending_content

abbrev pub tagged_bytes : Tagged → ℕ
tagged_bytes [] = 0
tagged_bytes ((s, c) ∷ t) = utf8_length (c ∷ []) + tagged_bytes t

tag-append : (s : LogStream) (t u : Text) → tag s (t ++ u) ≡ tag s t ++ tag s u
tag-append s [] u = refl
tag-append s (c ∷ t) u = ap (λ x. (s, c) ∷ x) (tag-append s t u)

tagged_chunks-append :
    (ks ls : List Chunk) → tagged_chunks (ks ++ ls) ≡ tagged_chunks ks ++ tagged_chunks ls
tagged_chunks-append [] ls = refl
tagged_chunks-append (k ∷ ks) ls =
    ap (λ x. tag k.stream k.content ++ x) (tagged_chunks-append ks ls)
    ∙ sym (append_assoc (tag k.stream k.content) (tagged_chunks ks) (tagged_chunks ls))

pub tagged_bytes-append : (t u : Tagged) → tagged_bytes (t ++ u) ≡ tagged_bytes t + tagged_bytes u
tagged_bytes-append [] u = omega arith
tagged_bytes-append ((s, c) ∷ t) u = omega (arith, tagged_bytes-append t u)

pub tagged_bytes-tag : (s : LogStream) (t : Text) → tagged_bytes (tag s t) ≡ utf8_length t
tagged_bytes-tag s [] = refl
tagged_bytes-tag s (c ∷ t) = omega (arith, tagged_bytes-tag s t)

-- A flush empties what is pending, and nothing is lost.
flush_stream-captured :
    (now : ℕ) (o : Option LogStream) (c : CaptureBuffer)
    → captured (flush_stream now o c) ≡ tagged_chunks c.chunks ++ tagged_pending o c.pending_content
flush_stream-captured now none c = refl
flush_stream-captured now (some s) c =
    append-nil _
    ∙ tagged_chunks-append c.chunks (pending_chunk now s c ∷ [])
    ∙ ap (λ x. tagged_chunks c.chunks ++ x) (append-nil (tag s c.pending_content))

empty_pending : (o : Option LogStream) (t : Text) → is_empty t ≡ true → tagged_pending o t ≡ []
empty_pending none t e = refl
empty_pending (some s) [] e = refl
empty_pending (some s) (c ∷ t) e = cc

flush_stream-pending :
    (now : ℕ) (o : Option LogStream) (c : CaptureBuffer)
    → ((flush_stream now o c).pending_content ≡ []) × ((flush_stream now o c).pending_stream ≡ none)
flush_stream-pending now none c = (refl, refl)
flush_stream-pending now (some s) c = (refl, refl)

pub flush_pending-captured :
    (now : ℕ) (c : CaptureBuffer) → captured (flush_pending now c) ≡ captured c
unfolding flush_pending
flush_pending-captured now c = elim (Bool-cases (is_empty c.pending_content)) [
  | inl e ↦ rw e (
      ap (λ x. tagged_chunks c.chunks ++ x)
        (sym (empty_pending c.pending_stream c.pending_content e)))
  | inr e ↦ rw e (flush_stream-captured now c.pending_stream c)
]

pub flush_pending-pending :
    (now : ℕ) (c : CaptureBuffer)
    → ((flush_pending now c).pending_content ≡ []) × ((flush_pending now c).pending_stream ≡ none)
unfolding flush_pending
flush_pending-pending now c = elim (Bool-cases (is_empty c.pending_content)) [
  | inl e ↦ rw e (refl, refl)
  | inr e ↦ rw e (flush_stream-pending now c.pending_stream c)
]

-- A turn of a loop holds the text that it splits.
flush_part-captured :
    (now : ℕ) (s : LogStream) (at : ℕ) (part rest : Text) (c : CaptureBuffer)
    → c.pending_stream ≡ some s
    → part ++ rest ≡ c.pending_content
    → captured (flush_part now s at (part, rest) c) ≡ captured c
unfolding flush_part
flush_part-captured now s at part rest c ps e =
    let d : CaptureBuffer = record c { pending_content = part } in
    let (pc, pn) = flush_pending-pending now d in
    let chunks : tagged_chunks (flush_pending now d).chunks ≡ tagged_chunks c.chunks ++ tag s part =
      sym (append-nil _)
      ∙ ap
          (λ o.
            tagged_chunks (flush_pending now d).chunks
            ++ tagged_pending o (flush_pending now d).pending_content)
          (sym pn)
      ∙ flush_pending-captured now d
      ∙ ap (λ o. tagged_chunks c.chunks ++ tagged_pending o part) ps in
    ap (λ x. x ++ tag s rest) chunks
    ∙ append_assoc (tagged_chunks c.chunks) (tag s part) (tag s rest)
    ∙ ap (λ x. tagged_chunks c.chunks ++ x) (sym (tag-append s part rest) ∙ ap (tag s) e)
    ∙ ap (λ o. tagged_chunks c.chunks ++ tagged_pending o c.pending_content) (sym ps)

flush_lines-captured :
    (fuel now : ℕ) (s : LogStream) (at : ℕ) (c : CaptureBuffer)
    → c.pending_stream ≡ some s
    → (captured (flush_lines fuel now s at c) ≡ captured c)
      × ((flush_lines fuel now s at c).pending_stream ≡ some s)
unfolding flush_lines
flush_lines-captured zero now s at c ps = (refl, ps)
flush_lines-captured (suc fuel) now s at c ps = elim (Option-cases (split_line c.pending_content)) [
  | inl e ↦ rw (flush_lines, e) (refl, ps)
  | inr ((line, rest), e) ↦
      let (a, b) = flush_lines-captured fuel now s at (flush_part now s at (line, rest) c) refl in
      let (whole, _, _) = split_line-append c.pending_content line rest e in
      rw (flush_lines, e) (a ∙ flush_part-captured now s at line rest c ps whole, b)
]

flush_parts-captured :
    (fuel now : ℕ) (s : LogStream) (at : ℕ) (c : CaptureBuffer)
    → c.pending_stream ≡ some s
    → (captured (flush_parts fuel now s at c) ≡ captured c)
      × ((flush_parts fuel now s at c).pending_stream ≡ some s)
unfolding flush_parts
flush_parts-captured zero now s at c ps = (refl, ps)
flush_parts-captured (suc fuel) now s at c ps =
    let parts = split_utf8 c.pending_content c.chunk_bytes in
    elim (Bool-cases (leb c.chunk_bytes (utf8_length c.pending_content))) [
      | inl e ↦
          let (a, b) = flush_parts-captured fuel now s at (flush_part now s at parts c) refl in
          rw (flush_parts, e)
            (
              a
                  ∙ flush_part-captured now s at parts.0 parts.1 c ps
                      (split_utf8-append c.pending_content c.chunk_bytes),
              b,
            )
      | inr e ↦ rw (flush_parts, e) (refl, ps)
    ]

same_stream-eq : (s t : LogStream) → same_stream s t ≡ true → s ≡ t
same_stream-eq stdout stdout e = refl
same_stream-eq stderr stderr e = refl
same_stream-eq stdout stderr e = cc
same_stream-eq stderr stdout e = cc

-- Text is added behind what is held of the same stream.
added :
    (o : Option LogStream) (ks : List Chunk) (s : LogStream) (t value : Text)
    → switches o s ≡ false
    → (o ≡ none → t ≡ [])
    → tagged_chunks ks ++ tag s (t ++ value)
      ≡ (tagged_chunks ks ++ tagged_pending o t) ++ tag s value
added none ks s t value e idle =
    ap (λ x. tagged_chunks ks ++ tag s (x ++ value)) (idle refl)
    ∙ ap (λ x. x ++ tag s value) (sym (append-nil (tagged_chunks ks)))
added (some u) ks s t value e idle =
    let us : u ≡ s = same_stream-eq u s (ground arith) in
    ap (λ x. tagged_chunks ks ++ x) (tag-append s t value)
    ∙ sym (append_assoc (tagged_chunks ks) (tag s t) (tag s value))
    ∙ ap (λ x. (tagged_chunks ks ++ tag x t) ++ tag s value) (sym us)

-- Nothing is pending without a stream.
abbrev pub Idle : CaptureBuffer → Type 0
Idle c = c.pending_stream ≡ none → c.pending_content ≡ []

add_pending-captured :
    (now : ℕ) (s : LogStream) (value : Text) (at : ℕ) (c : CaptureBuffer)
    → Idle c
    → captured (add_pending now s value at c) ≡ captured c ++ tag s value
unfolding add_pending
add_pending-captured now s value at c idle = elim (Bool-cases (switches c.pending_stream s)) [
  | inl e ↦
      let d = flush_pending now c in
      let (pc, pn) = flush_pending-pending now c in
      rw e (
        added d.pending_stream d.chunks s d.pending_content value (ap (λ o. switches o s) pn)
          (λ _. pc)
        ∙ ap (λ x. x ++ tag s value) (flush_pending-captured now c))
  | inr e ↦ rw e (added c.pending_stream c.chunks s c.pending_content value e idle)
]

added_stream :
    (now : ℕ) (s : LogStream) (value : Text) (at : ℕ) (c : CaptureBuffer)
    → (add_pending now s value at c).pending_stream ≡ some s
unfolding add_pending
added_stream now s value at c = refl

pub append-captured :
    (now : ℕ) (s : LogStream) (value : Text) (at : ℕ) (c : CaptureBuffer)
    → Idle c
    → (captured (append now s value at c) ≡ captured c ++ tag s value)
      × ((append now s value at c).pending_stream ≡ some s)
unfolding append
append-captured now s value at c idle =
    let d = add_pending now s value at c in
    let ps : d.pending_stream ≡ some s = added_stream now s value at c in
    let (a, b) = flush_lines-captured (length d.pending_content) now s at d ps in
    let e = flush_lines (length d.pending_content) now s at d in
    let (x, y) = flush_parts-captured (length e.pending_content) now s at e b in
    (x ∙ a ∙ add_pending-captured now s value at c idle, y)
