-- ===== src/Translate/Laws.antt =====
-- Decoded blocks against the memory that they were read from, and the hits of the cache.
use novium_emulator.Base.{
  ℕ, zero, suc, ◌+◌, ◌*◌, ◌<◌, ◌≤◌, ◌^◌, u32, u64, low_bits, ◌==◌, if_split, true, Option, none,
  some, List, [], ◌∷◌, ◌++◌, length, length-append, get_or, ◌≡◌, refl, sym, ap, ◌∙◌, arith, inl,
  inr, ◌⊎◌,
}
use mathlib.Core.Path.{subst}
use novium_emulator.Memory.{Memory, read32}
use novium_emulator.Translate.{
  DecodedBlock, BlockCache, find_block, is_halt, is_branch, start_block, push_op, close_block,
  decode_from, store_block, translate, max_len,
}

-- The block has the words of the memory at consecutive addresses from its first one on, no more
-- than `limit` of them, and ends behind the last.
abbrev pub IsDecoded : Memory → ℕ → ℕ → DecodedBlock → Type 0
IsDecoded mem pc limit b =
    (b.start_pc ≡ pc)
    × (b.end_pc ≡ u32 (pc + 4 * length b.ops))
    × (length b.ops ≤ limit)
    × ((k : ℕ) → k < length b.ops → read32 mem (u32 (pc + 4 * k)) ≡ some (get_or b.ops k 0))

abbrev pub AreDecoded : Memory → ℕ → ℕ → Option DecodedBlock → Type 0
AreDecoded mem pc limit none = Unit
AreDecoded mem pc limit (some b) = IsDecoded mem pc limit b

get_or-push :
    (xs : List ℕ) (w k : ℕ)
    → k < length (xs ++ (w ∷ []))
    → ((k < length xs) × (get_or (xs ++ (w ∷ [])) k 0 ≡ get_or xs k 0))
      ⊎ ((k ≡ length xs) × (get_or (xs ++ (w ∷ [])) k 0 ≡ w))
get_or-push [] w zero h = inr (refl, refl)
get_or-push [] w (suc k) h = ground arith
get_or-push (x ∷ xs) w zero h = inl (omega arith, refl)
get_or-push (x ∷ xs) w (suc k) h = elim (get_or-push xs w k (omega (arith, h))) [
  | inl (p, e) ↦ inl (omega (arith, p), e)
  | inr (p, e) ↦ inr (ap suc p, e)
]

push_op-IsDecoded :
    (mem : Memory) (pc limit w : ℕ) (b : DecodedBlock)
    → read32 mem b.end_pc ≡ some w
    → IsDecoded mem pc limit b
    → IsDecoded mem pc (suc limit) (push_op b w)
unfolding push_op
push_op-IsDecoded mem pc limit w b there (start, end_at, short, words) =
    let l = length-append b.ops (w ∷ []) in
    (
      start,
      omega (arith, l, end_at),
      omega (arith, l, short),
      λ k p. elim (get_or-push b.ops w k p) [
        | inl (q, e) ↦ words k q ∙ sym (ap some e)
        | inr (q, e) ↦
            ap (λ i. read32 mem (u32 (pc + 4 * i))) q
            ∙ ap (read32 mem) (sym end_at)
            ∙ there
            ∙ sym (ap some e)
      ],
    )

close_block-AreDecoded :
    (mem : Memory) (pc limit w : ℕ) (b : DecodedBlock) (rest : Option DecodedBlock)
    → IsDecoded mem pc limit b
    → AreDecoded mem pc limit rest
    → AreDecoded mem pc limit (close_block w b rest)
unfolding close_block
close_block-AreDecoded mem pc limit w b rest h k =
    if_split (AreDecoded mem pc limit) (is_halt w) (some (record b { ends_with_halt = true })) _
      (λ _. h)
      λ _.
        if_split (AreDecoded mem pc limit) (is_branch w)
          (some (record b { ends_with_branch = true })) _ (λ _. h)
          λ _.
            if_split (AreDecoded mem pc limit) (low_bits b.end_pc 6 == 0) (some b) rest (λ _. h)
              (λ _. k)

relax :
    (mem : Memory) (pc n k : ℕ) (b : DecodedBlock)
    → n ≤ k
    → IsDecoded mem pc n b
    → IsDecoded mem pc k b
relax mem pc n k b le (start, end_at, short, words) =
    (start, end_at, omega (arith, short, le), words)

-- The round of the loop after the memory answered.
round-AreDecoded :
    (mem : Memory) (pc n left : ℕ) (b : DecodedBlock) (o : Option ℕ)
    → read32 mem b.end_pc ≡ o
    → IsDecoded mem pc n b
    → ((w : ℕ)
        → IsDecoded mem pc (suc n) (push_op b w)
        → AreDecoded mem pc (suc n + left) (decode_from mem left (push_op b w)))
    → AreDecoded mem pc (n + suc left) (elim o [
      | none ↦ none
      | some w ↦ close_block w (push_op b w) (decode_from mem left (push_op b w))
    ])
round-AreDecoded mem pc n left b none e h deeper = tt
round-AreDecoded mem pc n left b (some w) e h deeper =
    let pushed = push_op-IsDecoded mem pc n w b e h in
    let next = decode_from mem left (push_op b w) in
    close_block-AreDecoded mem pc (n + suc left) w (push_op b w) next
      (relax mem pc (suc n) (n + suc left) (push_op b w) (omega arith) pushed)
      (subst (λ (k : ℕ). AreDecoded mem pc k next) (omega arith) (deeper w pushed))

decode_from-AreDecoded :
    (mem : Memory) (pc n left : ℕ) (b : DecodedBlock)
    → IsDecoded mem pc n b
    → AreDecoded mem pc (n + left) (decode_from mem left b)
unfolding decode_from
decode_from-AreDecoded mem pc n zero b h = relax mem pc n (n + 0) b (omega arith) h
decode_from-AreDecoded mem pc n (suc left) b h =
    round-AreDecoded mem pc n left b (read32 mem b.end_pc) refl h
      λ w h'. decode_from-AreDecoded mem pc (suc n) left (push_op b w) h'

-- A block that is decoded from a 32-bit address has at most 32 words, each the word of the memory at its address, at
-- consecutive addresses from the first one on modulo 2^32, and its end is behind the last.
pub decode_block :
    (mem : Memory) (pc : ℕ)
    → pc < 2 ^ 32
    → AreDecoded mem pc max_len (decode_from mem max_len (start_block pc))
unfolding start_block
decode_block mem pc fits =
    decode_from-AreDecoded mem pc 0 max_len (start_block pc)
      (refl, omega arith, omega arith, λ k p. elim p [ ])

found_after :
    (c : BlockCache) (mem : Memory) (pc : ℕ) (b : DecodedBlock) (o d : Option DecodedBlock)
    → find_block pc c.blocks ≡ o
    → AreDecoded mem pc max_len d
    → let r : Option DecodedBlock × BlockCache = elim o [
      | some x ↦ (some x, record c { hits = u64 (c.hits + 1) })
      | none ↦ store_block c d
    ] in
      r.0 ≡ some b → find_block pc r.1.blocks ≡ some b
unfolding store_block find_block
found_after c mem pc b (some x) d e h gives = e ∙ gives
found_after c mem pc b none none e h gives = cc
found_after c mem pc b none (some x) e h gives = let s = h.0 in ground (arith, s, gives)

hit :
    (c : BlockCache) (mem : Memory) (pc : ℕ) (b : DecodedBlock)
    → find_block pc c.blocks ≡ some b
    → translate c mem pc ≡ (some b, record c { hits = u64 (c.hits + 1) })
unfolding translate
hit c mem pc b e = cc

-- The cache does not see writes to the program: the block that was answered for a 32-bit address is
-- answered again, as a hit, whatever the memory holds by then.
pub translate-translate :
    (c : BlockCache) (mem mem' : Memory) (pc : ℕ) (b : DecodedBlock)
    → pc < 2 ^ 32
    → (translate c mem pc).0 ≡ some b
    → let c' = (translate c mem pc).1 in
      translate c' mem' pc ≡ (some b, record c' { hits = u64 (c'.hits + 1) })
unfolding translate
translate-translate c mem mem' pc b fits gives = hit (translate c mem pc).1 mem' pc b (
    found_after c mem pc b (find_block pc c.blocks) (decode_from mem max_len (start_block pc)) refl
      (decode_block mem pc fits) gives)
