-- ===== src/Decoder/Laws.antt =====
-- Round trip of native programs, and the count of what is emitted.
use novium_emulator.Base.{
  ℕ, suc, ◌+◌, ◌<◌, ◌≤◌, ◌^◌, All, Option, none, some, List, [], ◌∷◌, length, length-append, ◌≡◌,
  refl, ap, arith, if_split, if◌then◌else◌, Bool, true, false,
}
use mathlib.Core.Path.{ap₂}
use novium_emulator.Memory.{word_bytes, words_bytes}
use novium_emulator.Base.Text.{Text, lines, trim, cut_at, codes, is_empty, lowered}
use novium_emulator.Isa.Halting.{ends_in_halt, ensure_halt-ends, ensure_halt-length}
use novium_emulator.Decoder.{
  native, ptx, ptx_op, translate_one_ptx, add_line, translate_lines, translate_ptx,
  TranslationStats, words_of, add_word, translate_words, copy_words, translate_bytes,
}

words_of-words_bytes : (ws : List ℕ) → All (λ w. w < 2 ^ 32) ws → words_of (words_bytes ws) ≡ ws
unfolding words_of words_bytes word_bytes
words_of-words_bytes [] h = refl
words_of-words_bytes (w ∷ ws) h = ap₂ ◌∷◌ (omega (arith, h.0)) (words_of-words_bytes ws h.1)

-- A native program whose words have 32 bits is translated to itself, and every word is counted.
pub translate_bytes-words_bytes :
    (ws : List ℕ)
    → All (λ w. w < 2 ^ 32) ws
    → translate_bytes native (words_bytes ws)
      ≡ (ws, record { decoded = length ws; emitted = length ws })
unfolding translate_bytes copy_words
translate_bytes-words_bytes ws h = ap copy_words (words_of-words_bytes ws h)

add_word-length :
    (r : Option (List ℕ)) (t : List ℕ × TranslationStats) (n : ℕ)
    → length t.0 + t.1.decoded ≡ t.1.emitted + n
    → t.1.decoded ≤ n
    → (length (add_word r t).0 + (add_word r t).1.decoded ≡ (add_word r t).1.emitted + suc n)
      × ((add_word r t).1.decoded ≤ suc n)
unfolding add_word
add_word-length none t n h k = (omega (arith, h), omega (arith, k))
add_word-length (some ops) t n h k = (omega (arith, h, length-append ops t.0), omega (arith, k))

-- Whatever the decoder of one word is, no more words are counted as decoded than there are, and the
-- words that are emitted are those counted as emitted and one NOP for each word not decoded.
pub translate_words-length :
    (one : ℕ → Option (List ℕ)) (ws : List ℕ)
    → let (out, stats) = translate_words one ws in
      (length out + stats.decoded ≡ stats.emitted + length ws) × (stats.decoded ≤ length ws)
unfolding translate_words
translate_words-length one [] = (omega arith, omega arith)
translate_words-length one (w ∷ ws) =
    let ih = translate_words-length one ws in
    add_word-length (one w) (translate_words one ws) (length ws) ih.0 ih.1

abbrev pub Tallied : List ℕ × TranslationStats → ℕ → Type 0
Tallied t n = (length t.0 ≡ t.1.emitted) × (t.1.decoded ≡ t.1.emitted) × (t.1.decoded ≤ n)

-- One word or none.
unfoldable AtMostOne : Option (List ℕ) → Type 0
AtMostOne none = Unit
AtMostOne (some ops) = length ops ≡ 1

one_of :
    (b : Bool) (w : ℕ) (o : Option (List ℕ))
    → AtMostOne o
    → AtMostOne (if b then some (w ∷ []) else o)
unfolding AtMostOne
one_of true w o h = refl
one_of false w o h = h

none-AtMostOne : AtMostOne none
unfolding AtMostOne
none-AtMostOne = tt

ptx_op-AtMostOne : (low : Text) → AtMostOne (ptx_op low)
unfolding ptx_op
ptx_op-AtMostOne low = search (one_of, none-AtMostOne) depth 12

translate_one_ptx-AtMostOne : (line : Text) → AtMostOne (translate_one_ptx line)
unfolding translate_one_ptx AtMostOne
translate_one_ptx-AtMostOne line =
    let s = trim (cut_at (codes "//") line) in
    if_split AtMostOne (is_empty s) none (ptx_op (lowered s)) (λ _. tt)
      (λ _. ptx_op-AtMostOne (lowered s))

add_line-Tallied :
    (r : Option (List ℕ)) (t : List ℕ × TranslationStats) (n : ℕ)
    → AtMostOne r
    → Tallied t n
    → Tallied (add_line r t) (suc n)
unfolding add_line AtMostOne
add_line-Tallied none t n one h = (omega (arith, h), omega (arith, h), omega (arith, h))
add_line-Tallied (some ops) t n one h =
    let l = length-append ops t.0 in (omega (arith, h), omega (arith, h), omega (arith, h))

translate_lines-Tallied : (ls : List Text) → Tallied (translate_lines ls) (length ls)
unfolding translate_lines
translate_lines-Tallied [] = (omega arith, omega arith, omega arith)
translate_lines-Tallied (l ∷ ls) =
    add_line-Tallied (translate_one_ptx l) (translate_lines ls) (length ls)
      (translate_one_ptx-AtMostOne l) (translate_lines-Tallied ls)

-- A PTX text is always translated to a program that ends in HALT. Each line gives at most one word;
-- the program has the words that were counted as emitted, and the HALT if none stood at the end.
pub translate_ptx-halts :
    (source : Text)
    → let (out, stats) = translate_bytes ptx source in
      (ends_in_halt out ≡ true)
      × (stats.emitted ≤ length out)
      × (length out ≤ stats.emitted + 1)
      × (stats.decoded ≡ stats.emitted)
      × (stats.decoded ≤ length (lines source))
unfolding translate_bytes translate_ptx
translate_ptx-halts source =
    let t = translate_lines (lines source) in
    let tallied = translate_lines-Tallied (lines source) in
    let l = ensure_halt-length t.0 in
    (ensure_halt-ends t.0, omega arith, omega arith, tallied.1, tallied.2)
