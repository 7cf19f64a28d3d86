-- ===== src/Trace/Laws.antt =====
-- The trace as the last entries, and the header of a VCD file.
use novium_emulator.Base.{ℕ, ap, ◌∙◌, ◌≡◌, refl, arith, true, List, [], ◌∷◌}
use novium_emulator.Base.Window.{push_all, last_of, push_all-last_of}
use novium_emulator.Trace.{
  emit, TraceEntry, InstructionTrace, push, VcdWriter, open_file, close, header, header_items, dump,
  dump_items,
}

unfoldable pub push_entries : InstructionTrace → List TraceEntry → InstructionTrace
push_entries t [] = t
push_entries t (e ∷ es) = push_entries (push t e) es

push_entries-push_all :
    (t : InstructionTrace) (es : List TraceEntry)
    → push_entries t es ≡ record t { entries = push_all t.max_entries t.entries es }
unfolding push_entries push push_all
push_entries-push_all t [] = refl
push_entries-push_all t (e ∷ es) = push_entries-push_all (push t e) es

-- The trace keeps the latest entries, as many as its maximum, in the order of the commits.
pub push_entries-last_of :
    (limit : ℕ) (es : List TraceEntry)
    → push_entries (record { entries = []; max_entries = limit }) es
      ≡ record { entries = last_of limit es; max_entries = limit }
push_entries-last_of limit es =
    push_entries-push_all (record { entries = []; max_entries = limit }) es
    ∙ ap (λ (h : List TraceEntry). record { entries = h; max_entries = limit })
        (push_all-last_of limit es)

-- A file that is written to after another one was closed gets no header from `dump`: the flag of
-- the first file is not reset.
pub second_file_headless :
    (w : VcdWriter) (cycle pc raw gpr0 : ℕ)
    → w.is_open ≡ true
    → (dump cycle pc raw gpr0 (open_file true (close (dump cycle pc raw gpr0 w)))).file
      ≡ dump_items cycle pc raw gpr0
unfolding dump open_file close header dump_items header_items emit
second_file_headless w cycle pc raw gpr0 h = ground (arith)
