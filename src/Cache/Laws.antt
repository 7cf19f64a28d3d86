-- ===== src/Cache/Laws.antt =====
-- Hits and misses of the cache, and the choice of the line that is replaced.
use novium_emulator.Base.{
  ℕ, zero, suc, ◌+◌, ◌<◌, ◌%◌, ◌/◌, u64, ◌==◌, if◌then◌else◌, Bool, true, false, ◌&&◌, ◌||◌, Option,
  none, some, List, [], ◌∷◌, length, get_or, set, ◌≡◌, refl, sym, ap, ◌∙◌, arith, length-set,
}
use mathlib.Core.Path.{subst}
use novium_emulator.Cache.{
  Cache, CacheStats, Line, touch, victim, victim_from, filled, set_of, finish, access,
}

-- The set holds the tag in a valid line.
unfoldable pub has_tag : ℕ → List Line → Bool
has_tag tag [] = false
has_tag tag (l ∷ ls) = (l.valid && l.tag == tag) || has_tag tag ls

-- The cache holds the line of the address.
unfoldable pub holds : Cache → ℕ → Bool
holds c addr = has_tag (addr / c.cfg.line_bytes) (get_or c.sets (set_of c addr) [])

-- What `touch` returns: a set that holds the tag, or nothing when the set does not hold it.
abbrev TouchResult : ℕ → List Line → Option (List Line) → Type 0
TouchResult tag ls none = has_tag tag ls ≡ false
TouchResult tag ls (some ls') = (has_tag tag ls ≡ true) × (has_tag tag ls' ≡ true)

step_result :
    (tag : ℕ) (l l' : Line) (ls : List Line) (b : Bool) (r : Option (List Line))
    → (l.valid && l.tag == tag) ≡ b
    → (l'.valid && l'.tag == tag) ≡ b
    → TouchResult tag ls r
    → TouchResult tag
        (l ∷ ls)
        (if b then some (l' ∷ ls) else elim r [ none ↦ none | some ls' ↦ some (l ∷ ls') ])
unfolding has_tag
step_result tag l l' ls true r e e' h = (ground arith, ground arith)
step_result tag l l' ls false none e e' h = ground arith
step_result tag l l' ls false (some ls') e e' h = (ground arith, ground arith)

touch_result : (tag now : ℕ) (w : Bool) (ls : List Line) → TouchResult tag ls (touch tag now w ls)
unfolding touch has_tag
touch_result tag now w [] = refl
touch_result tag now w (l ∷ ls) =
    step_result tag l (record l { lru = now; dirty = l.dirty || w }) ls (l.valid && l.tag == tag)
      (touch tag now w ls) refl refl (touch_result tag now w ls)

-- A line that was filled is found.
has_tag-set :
    (tag now : ℕ) (w : Bool) (ls : List Line) (i : ℕ)
    → i < length ls
    → has_tag tag (set ls i (filled tag now w)) ≡ true
unfolding has_tag
has_tag-set tag now w [] i h = elim h [ ]
has_tag-set tag now w (l ∷ ls) zero h = ground arith
has_tag-set tag now w (l ∷ ls) (suc i) h =
    let ih = has_tag-set tag now w ls i (omega arith) in ground (arith, ih)

victim_from-lt :
    (ls : List Line) (i best least : ℕ)
    → best < i + length ls
    → victim_from ls i best least < i + length ls
unfolding victim_from
victim_from-lt [] i best least h = h
victim_from-lt (l ∷ ls) i best least h =
    let a = victim_from-lt ls (i + 1) i l.lru in
    let b = victim_from-lt ls (i + 1) best least in ground (arith, a (omega arith), b (omega arith))

victim-lt : (ls : List Line) → 0 < length ls → victim ls < length ls
unfolding victim
victim-lt [] h = elim h [ ]
victim-lt (l ∷ ls) h = omega (arith, victim_from-lt (l ∷ ls) 0 0 l.lru (omega arith))

get_or-set :
    (xs : List (List Line)) (i : ℕ) (v : List Line) → i < length xs → get_or (set xs i v) i [] ≡ v
get_or-set [] i v h = elim h [ ]
get_or-set (x ∷ xs) zero v h = refl
get_or-set (x ∷ xs) (suc i) v h = get_or-set xs i v (omega arith)

-- What holds of the answer of an access and of the cache after it.
abbrev pub Answers : Cache → ℕ → Bool × ℕ × Cache → Type 0
Answers c addr (hit, stall, c') =
    (hit ≡ holds c addr)
    × (stall ≡ (if hit then c.cfg.hit_latency else c.cfg.miss_penalty))
    × (holds c' addr ≡ true)
    × (c'.cfg ≡ c.cfg)
    × (length c'.sets ≡ length c.sets)
    × (c'.stats.hits ≡ (if hit then u64 (c.stats.hits + 1) else c.stats.hits))
    × (c'.stats.misses ≡ (if hit then c.stats.misses else u64 (c.stats.misses + 1)))

-- The set that an access wrote is the set that the next access of the address reads.
holds-written :
    (c : Cache) (addr now : ℕ) (st : CacheStats) (ls : List Line)
    → set_of c addr < length c.sets
    → has_tag (addr / c.cfg.line_bytes) ls ≡ true
    → holds (record c { sets = set c.sets (set_of c addr) ls; clock = now; stats = st }) addr ≡ true
unfolding holds set_of
holds-written c addr now st ls fits found =
    let tag = addr / c.cfg.line_bytes in
    let written = set c.sets (set_of c addr) ls in
    subst (λ n. has_tag tag (get_or written (tag % n) []) ≡ true)
      (sym (length-set c.sets (set_of c addr) ls))
      (ap (has_tag tag) (get_or-set c.sets (set_of c addr) ls fits) ∙ found)

finish-Answers :
    (c : Cache) (addr : ℕ) (w : Bool) (r : Option (List Line))
    → set_of c addr < length c.sets
    → 0 < length (get_or c.sets (set_of c addr) [])
    → TouchResult (addr / c.cfg.line_bytes) (get_or c.sets (set_of c addr) []) r
    → Answers c addr (finish c addr w r)
unfolding finish holds
finish-Answers c addr w (some ls) fits lines h = (
  sym (h.0),
  refl,
  holds-written c addr (u64 (c.clock + 1)) (record c.stats { hits = u64 (c.stats.hits + 1) }) ls
      fits (h.1),
  refl,
  length-set c.sets (set_of c addr) ls,
  refl,
  refl,
)
finish-Answers c addr w none fits lines h =
    let tag = addr / c.cfg.line_bytes in
    let set' = get_or c.sets (set_of c addr) [] in
    let now = u64 (c.clock + 1) in
    (
      sym h,
      refl,
      holds-written c addr now (finish c addr w none).2.stats
          (set set' (victim set') (filled tag now w)) fits
          (has_tag-set tag now w set' (victim set') (victim-lt set' lines)),
      refl,
      length-set c.sets (set_of c addr) (set set' (victim set') (filled tag now w)),
      refl,
      refl,
    )

-- An access of a cache that has sets, with lines in the set of the address, hits exactly when the
-- cache holds the line. It costs the hit latency or the miss penalty, counts one hit or one miss,
-- and afterwards the cache holds the line, with the same configuration and number of sets.
pub access_lem :
    (c : Cache) (addr s : ℕ) (w : Bool)
    → 0 < length c.sets
    → 0 < length (get_or c.sets (set_of c addr) [])
    → Answers c addr (access c addr w s)
unfolding access set_of
access_lem c addr s w sets lines =
    let found =
      touch (addr / c.cfg.line_bytes) (u64 (c.clock + 1)) w (get_or c.sets (set_of c addr) []) in
    let e : access c addr w s ≡ finish c addr w found = ground arith in
    subst (Answers c addr) (sym e) (
      finish-Answers c addr w found (omega arith) lines (
        touch_result (addr / c.cfg.line_bytes) (u64 (c.clock + 1)) w
          (get_or c.sets (set_of c addr) [])))
