-- ===== src/Output/Tests.antt =====
-- runtime/output.py: the theorems on a small capture.
use pyscripts.Base.{◌≤◌, ◌<◌, ◌≡◌, refl, true, false, List, [], ◌∷◌, ◌++◌, arith}
use pyscripts.Output.Utf8.{utf8_length, take_utf8, drop, split_line, split_utf8}
use pyscripts.Output.{
  stdout, stderr, CaptureBuffer, new_buffer, write_at, append, flush_lines, flush_parts, flush_part,
  flush_pending, snapshot, add_pending, store,
}
use pyscripts.Output.Captured.{captured, tagged_bytes, tag}
use pyscripts.Output.History.{
  Write, run, written, run_bounded, run_complete, new_buffer-Inv, run-Inv, snapshot-captured,
  tagged_logs, write_at-kept,
}
use pyscripts.Output.Loops.{NoLine, append-pending}

-- "ab\nc" to the standard output, and "é" to the standard error
abbrev writes : List Write
writes =
    record { now = 1; stream = stdout; value = 97 ∷ 98 ∷ 10 ∷ 99 ∷ []; emitted_at = 1 }
    ∷ record { now = 2; stream = stderr; value = 233 ∷ []; emitted_at = 2 }
    ∷ []

abbrev small : CaptureBuffer
small = new_buffer 8 4 true

run_bounded_example :
    ((run writes small).bytes ≡ tagged_bytes (captured (run writes small)))
    × ((run writes small).bytes ≤ 8)
run_bounded_example = run_bounded writes 8 4 true

whole : (run writes small).truncated ≡ false
unfolding run write_at append add_pending flush_lines flush_parts flush_part flush_pending
    split_line split_utf8 take_utf8 drop store
whole = refl

run_complete_example : captured (run writes small) ≡ written true writes
run_complete_example = run_complete writes 8 4 true whole

-- "é" does not fit in the five bytes, of which four are used.
cut_short : captured (run writes (new_buffer 5 4 true)) ≡ tag stdout (97 ∷ 98 ∷ 10 ∷ 99 ∷ [])
unfolding run write_at append add_pending flush_lines flush_parts flush_part flush_pending
    split_line split_utf8 take_utf8 drop store
cut_short = refl

abbrev filled : CaptureBuffer
filled = run writes small

-- The snapshot flushes the "é" that is pending.
snapshot-captured_example :
    (tagged_logs (snapshot 3 filled).0.0
      ≡ tag stdout (97 ∷ 98 ∷ 10 ∷ 99 ∷ []) ++ tag stderr (233 ∷ []))
    × ((snapshot 3 filled).0.1 ≡ tagged_bytes (tagged_logs (snapshot 3 filled).0.0))
    × (captured (snapshot 3 filled).1 ≡ captured filled)
unfolding run write_at append add_pending flush_lines flush_parts flush_part flush_pending
    split_line split_utf8 take_utf8 drop store
snapshot-captured_example =
    snapshot-captured 3 filled (run-Inv writes small (new_buffer-Inv 8 4 true))

append-pending_example :
    (utf8_length (append 1 stdout (97 ∷ 10 ∷ 99 ∷ []) 1 small).pending_content < 4)
    × NoLine (append 1 stdout (97 ∷ 10 ∷ 99 ∷ []) 1 small).pending_content
append-pending_example = append-pending 1 stdout (97 ∷ 10 ∷ 99 ∷ []) 1 small (omega arith)

write_at-kept_example :
    captured (write_at 1 stdout (97 ∷ 98 ∷ 10 ∷ 99 ∷ []) 1 (new_buffer 3 4 true)).1
    ≡ tag stdout (97 ∷ 98 ∷ 10 ∷ [])
unfolding take_utf8
write_at-kept_example =
    write_at-kept 1 stdout (97 ∷ 98 ∷ 10 ∷ 99 ∷ []) 1 (new_buffer 3 4 true)
      (new_buffer-Inv 3 4 true)
