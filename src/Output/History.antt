-- ===== src/Output/History.antt =====
-- runtime/output.py: `write_at` on every branch, and captures through any writes.
use pyscripts.Base.{
  ℕ, suc, ◌-◌, ◌≤◌, ◌≡◌, refl, sym, ap, ◌∙◌, Bool, true, false, ◌&&◌, ◌||◌, not, List, [], ◌∷◌,
  ◌++◌, append-nil, append_assoc, ltb, length, arith, inl, inr, Bool-cases, ◌==◌, if◌then◌else◌,
}
use pyscripts.Output.Utf8.{Text, utf8_length, take_utf8, take_utf8_all, is_empty}
use pyscripts.Output.{
  LogStream, Chunk, CapturedLogChunk, CaptureBuffer, new_buffer, flush_pending, is_stderr, store,
  write_at, snapshot, number,
}
use pyscripts.Output.Captured.{
  Tagged, tag, tagged_chunks, tagged_pending, captured, tagged_bytes, flush_pending-captured,
  flush_pending-pending,
}
use pyscripts.Output.Bounds.{Inv, Taken, store-Taken, kept, flush_pending-Same}

-- whether a write loses characters to the bound
abbrev pub lost : LogStream → Text → CaptureBuffer → Bool
lost s value c =
    if is_stderr s && not c.capture_stderr
    then false
    else if c.closed
    then false
    else ltb (c.max_bytes - c.bytes) (utf8_length value)

module _ (now : ℕ) (s : LogStream) (at : ℕ) (c : CaptureBuffer) (inv : Inv c) where
  -- a write that keeps nothing
  idle-Taken :
      (value : Text) (b : Bool) (t : Text) (cut : Bool)
      → t ≡ []
      → b ≡ (c.truncated || cut)
      → Taken now s value at c inv t cut (record c { truncated = b })
  idle-Taken value b t cut et eb = (
    sym (append-nil (captured c)) ∙ ap (λ x. captured c ++ tag s x) (sym et),
    record { counted = inv.counted; bounded = inv.bounded; idle = inv.idle },
    refl,
    refl,
    refl,
    eb,
  )

  take_zero : (value : Text) → take_utf8 0 value ≡ []
  unfolding take_utf8
  take_zero [] = refl
  take_zero (x ∷ t) = ground arith

  or_false : (b : Bool) → b ≡ (b || false)
  or_false true = refl
  or_false false = refl

  or_true : (b : Bool) → true ≡ (b || true)
  or_true true = refl
  or_true false = refl

  over : (value : Text) → is_empty value ≡ false → true ≡ ltb 0 (utf8_length value)
  over [] h = cc
  over (x ∷ t) h = ground arith

  -- what `write_at` answers, by its tests
  abbrev answer : Bool → Bool → Bool → ℕ → CaptureBuffer → CaptureBuffer → ℕ × CaptureBuffer
  answer skip shut full n marked stored =
      if skip then (n, c) else if shut then (n, c) else if full then (n, marked) else (n, stored)

  branches :
      (value : Text) (skip shut full : Bool) (n : ℕ) (fit : Text) (cut : Bool)
      (marked stored : CaptureBuffer)
      → Taken now s value at c inv [] false c
      → (full ≡ true → Taken now s value at c inv fit cut marked)
      → Taken now s value at c inv fit cut stored
      → Taken now s value at c inv
          (if skip then [] else if shut then [] else fit)
          (if skip then false else if shut then false else cut)
          (answer skip shut full n marked stored).1
  branches value true shut full n fit cut marked stored a b d = a
  branches value false true full n fit cut marked stored a b d = a
  branches value false false true n fit cut marked stored a b d = b refl
  branches value false false false n fit cut marked stored a b d = d

  full-Taken :
      (value : Text)
      → is_empty value ≡ false
      → c.max_bytes - c.bytes ≡ 0
      → Taken now s value at c inv
          (take_utf8 (c.max_bytes - c.bytes) value)
          (ltb (c.max_bytes - c.bytes) (utf8_length value))
          (record c { truncated = true })
  full-Taken value e none_left =
      idle-Taken value true (take_utf8 (c.max_bytes - c.bytes) value)
        (ltb (c.max_bytes - c.bytes) (utf8_length value))
        (ap (λ n. take_utf8 n value) none_left ∙ take_zero value)
        (or_true c.truncated
          ∙ ap (λ b. c.truncated || b)
              (over value e ∙ ap (λ n. ltb n (utf8_length value)) (sym none_left)))

  nothing-Taken : (value : Text) → Taken now s value at c inv [] false c
  nothing-Taken value = idle-Taken value c.truncated [] false refl (or_false c.truncated)

  -- On every branch, a write adds the text that is kept, tells whether text is lost, and stays
  -- within the bound.
  pub write_at-Taken :
      (value : Text)
      → Taken now s value at c inv (kept s value c) (lost s value c) (write_at now s value at c).1
  unfolding write_at take_utf8
  write_at-Taken [] =
      idle-Taken [] c.truncated (kept s [] c) (lost s [] c) (ground arith) (ground arith)
  write_at-Taken (x ∷ t) =
      branches (x ∷ t) (is_stderr s && not c.capture_stderr) c.closed ((c.max_bytes - c.bytes) == 0)
        (length (x ∷ t)) (take_utf8 (c.max_bytes - c.bytes) (x ∷ t))
        (ltb (c.max_bytes - c.bytes) (utf8_length (x ∷ t))) (record c { truncated = true })
        (store now s (x ∷ t) at (c.max_bytes - c.bytes) c) (nothing-Taken (x ∷ t))
        (λ e. full-Taken (x ∷ t) refl (ground arith)) (store-Taken now s (x ∷ t) at c inv)

-- If the counter of a capture is right, a write adds to the text that is held, behind it: nothing if the stream is not captured or the
-- capture is closed, and else the characters that fit whole in the bytes left.
pub write_at-kept :
    (now : ℕ) (s : LogStream) (value : Text) (at : ℕ) (c : CaptureBuffer)
    → Inv c
    → captured (write_at now s value at c).1
      ≡ captured c
        ++ tag s (
            if is_stderr s && not c.capture_stderr
            then []
            else if c.closed
            then []
            else take_utf8 (c.max_bytes - c.bytes) value)
write_at-kept now s value at c inv =
    let (held, _, _, _, _, _) = write_at-Taken now s at c inv value in held

-- a call of `write_at`
pub record Write : Type 0 where
  pub now : ℕ
  pub stream : LogStream
  pub value : Text
  pub emitted_at : ℕ

unfoldable pub run : List Write → CaptureBuffer → CaptureBuffer
unfolding write_at
run [] c = c
run (w ∷ ws) c = run ws (write_at w.now w.stream w.value w.emitted_at c).1

-- all that is written to the streams that are captured
abbrev pub written : Bool → List Write → Tagged
written capture_stderr [] = []
written capture_stderr (w ∷ ws) =
    (if is_stderr w.stream && not capture_stderr then [] else tag w.stream w.value)
    ++ written capture_stderr ws

-- the new capture has nothing
pub new_buffer-Inv : (m k : ℕ) (b : Bool) → Inv (new_buffer m k b)
new_buffer-Inv m k b = record { counted = refl; bounded = omega arith; idle = λ n. refl }

pub run-Inv : (ws : List Write) (c : CaptureBuffer) → Inv c → Inv (run ws c)
unfolding run
run-Inv [] c inv = inv
run-Inv (w ∷ ws) c inv =
    let (_, next, _, _, _, _) = write_at-Taken w.now w.stream w.emitted_at c inv w.value in
    run-Inv ws (write_at w.now w.stream w.value w.emitted_at c).1 next

run_max : (ws : List Write) (c : CaptureBuffer) → Inv c → (run ws c).max_bytes ≡ c.max_bytes
unfolding run
run_max [] c inv = refl
run_max (w ∷ ws) c inv =
    let (_, next, m, _, _, _) = write_at-Taken w.now w.stream w.emitted_at c inv w.value in
    run_max ws (write_at w.now w.stream w.value w.emitted_at c).1 next ∙ m

-- After any writes to a new capture, the byte counter is the size of the text held in the chunks
-- and the pending part, and it is at most `max_bytes`.
pub run_bounded :
    (ws : List Write) (max_bytes chunk_bytes : ℕ) (capture_stderr : Bool)
    → ((run ws (new_buffer max_bytes chunk_bytes capture_stderr)).bytes
        ≡ tagged_bytes (captured (run ws (new_buffer max_bytes chunk_bytes capture_stderr))))
      × ((run ws (new_buffer max_bytes chunk_bytes capture_stderr)).bytes ≤ max_bytes)
run_bounded ws m k b =
    let start = new_buffer-Inv m k b in
    let inv = run-Inv ws (new_buffer m k b) start in
    (inv.counted, omega (arith, inv.bounded, run_max ws (new_buffer m k b) start))

-- What a write keeps if it loses nothing.
kept_whole :
    (s : LogStream) (value : Text) (c : CaptureBuffer)
    → c.closed ≡ false
    → lost s value c ≡ false
    → tag s (kept s value c) ≡ (if is_stderr s && not c.capture_stderr then [] else tag s value)
kept_whole s value c opened h = elim (Bool-cases (is_stderr s && not c.capture_stderr)) [
  | inl e ↦ simp e refl
  | inr e ↦
      let whole : take_utf8 (c.max_bytes - c.bytes) value ≡ value =
        take_utf8_all (c.max_bytes - c.bytes) value (ground arith) in
      ground (arith, ap (tag s) whole)
]

-- a flag that is set stays set
run_truncated :
    (ws : List Write) (c : CaptureBuffer) → Inv c → c.truncated ≡ true → (run ws c).truncated ≡ true
unfolding run
run_truncated [] c inv h = h
run_truncated (w ∷ ws) c inv h =
    let (_, next, _, _, _, t) = write_at-Taken w.now w.stream w.emitted_at c inv w.value in
    run_truncated ws (write_at w.now w.stream w.value w.emitted_at c).1 next
      (t ∙ ap (λ b. b || lost w.stream w.value c) h)

run-captured :
    (ws : List Write) (c : CaptureBuffer)
    → Inv c
    → c.closed ≡ false
    → (run ws c).truncated ≡ false
    → captured (run ws c) ≡ captured c ++ written c.capture_stderr ws
unfolding run
run-captured [] c inv opened h = sym (append-nil (captured c))
run-captured (w ∷ ws) c inv opened h =
    let d = (write_at w.now w.stream w.value w.emitted_at c).1 in
    let (held, next, _, e, k, t) = write_at-Taken w.now w.stream w.emitted_at c inv w.value in
    let clean : d.truncated ≡ false = elim (Bool-cases d.truncated) [
      | inl on ↦ cc (run_truncated ws d next on)
      | inr off ↦ off
    ] in
    let whole : lost w.stream w.value c ≡ false = ground arith in
    run-captured ws d next (k ∙ opened) h
    ∙ ap (λ b. captured d ++ written b ws) e
    ∙ ap (λ x. x ++ written c.capture_stderr ws)
        (held ∙ ap (λ x. captured c ++ x) (kept_whole w.stream w.value c opened whole))
    ∙ append_assoc (captured c)
        (if is_stderr w.stream && not c.capture_stderr then [] else tag w.stream w.value)
        (written c.capture_stderr ws)

-- If a new capture is not truncated after some writes, it holds exactly what was written to the
-- streams that it captures, in the order of the writes, with the stream of each character.
pub run_complete :
    (ws : List Write) (max_bytes chunk_bytes : ℕ) (capture_stderr : Bool)
    → (run ws (new_buffer max_bytes chunk_bytes capture_stderr)).truncated ≡ false
    → captured (run ws (new_buffer max_bytes chunk_bytes capture_stderr))
      ≡ written capture_stderr ws
run_complete ws m k b h = run-captured ws (new_buffer m k b) (new_buffer-Inv m k b) refl h

-- the text in the log chunks of a snapshot
abbrev pub tagged_logs : List CapturedLogChunk → Tagged
tagged_logs [] = []
tagged_logs (k ∷ ks) = tag k.stream k.content ++ tagged_logs ks

number-tagged : (i : ℕ) (ks : List Chunk) → tagged_logs (number i ks) ≡ tagged_chunks ks
unfolding number
number-tagged i [] = refl
number-tagged i (k ∷ ks) = ap (λ x. tag k.stream k.content ++ x) (number-tagged (suc i) ks)

-- If the counter of a capture is right, the log chunks of a snapshot hold all the text of the capture in order, the number that goes
-- with them is their size in bytes, and the capture still holds the same text.
pub snapshot-captured :
    (now : ℕ) (c : CaptureBuffer)
    → Inv c
    → (tagged_logs (snapshot now c).0.0 ≡ captured c)
      × ((snapshot now c).0.1 ≡ tagged_bytes (tagged_logs (snapshot now c).0.0))
      × (captured (snapshot now c).1 ≡ captured c)
unfolding snapshot
snapshot-captured now c inv =
    let d = flush_pending now c in
    let (pc, pn) = flush_pending-pending now c in
    let (_, _, _, b, _, _) = flush_pending-Same now c in
    let chunks : tagged_chunks d.chunks ≡ captured c =
      sym (append-nil (tagged_chunks d.chunks))
      ∙ ap (λ o. tagged_chunks d.chunks ++ tagged_pending o d.pending_content) (sym pn)
      ∙ flush_pending-captured now c in
    let logs = number-tagged 0 d.chunks ∙ chunks in
    (logs, b ∙ inv.counted ∙ ap tagged_bytes (sym logs), flush_pending-captured now c)
