-- ===== src/Base/Window.antt =====
-- A queue of bounded length: a new element goes in at the back, and one element leaves the front if
-- the queue is then too long. The history of the checkpoints and the instruction trace are such.
use Prim.Native.Nat.{ℕ, zero, suc, ◌+◌, ◌-◌, ◌≤◌, ◌<◌}
use mathlib.Core.Path.{◌≡◌, refl, ap, sym, ◌∙◌}
use mathlib.Core.Option.{Option, none, some}
use mathlib.Core.List.{List, [], ◌∷◌, ◌++◌, append_assoc, append-nil}
use native.Mathlib.Decide.{dec_lt}
use native.Mathlib.Omega.{arith}
use novium_emulator.Base.Tests.{ltb, if◌then◌else◌}
use novium_emulator.Base.Lists.{length, tail, length-append}

module _ {ℓ} {A : Type ℓ} where
  abbrev pub drop : ℕ → List A → List A
  drop zero xs = xs
  drop (suc n) [] = []
  drop (suc n) (x ∷ xs) = drop n xs

  abbrev pub take : ℕ → List A → List A
  take zero xs = []
  take (suc n) [] = []
  take (suc n) (x ∷ xs) = x ∷ take n xs

  -- The last `n` elements.
  abbrev pub last_of : ℕ → List A → List A
  last_of n xs = drop (length xs - n) xs

  -- push_back, and one pop_front if the size is above the maximum.
  unfoldable pub push_bounded : ℕ → List A → A → List A
  push_bounded limit xs x = let ys = xs ++ (x ∷ []) in if ltb limit (length ys) then tail ys else ys

  unfoldable pub push_all : ℕ → List A → List A → List A
  push_all limit xs [] = xs
  push_all limit xs (y ∷ ys) = push_all limit (push_bounded limit xs y) ys

  -- The list without its last element, and that element.
  unfoldable pub split_last : A → List A → List A × A
  split_last x [] = ([], x)
  split_last x (y ∷ ys) = let rest = split_last y ys in (x ∷ rest.0, rest.1)

  unfoldable pub pop_back : List A → Option (List A × A)
  unfolding split_last
  pop_back [] = none
  pop_back (x ∷ xs) = some (split_last x xs)

  split_last-append : (y : A) (xs : List A) (x : A) → split_last y (xs ++ (x ∷ [])) ≡ (y ∷ xs, x)
  unfolding split_last
  split_last-append y [] x = refl
  split_last-append y (z ∷ xs) x = cc (split_last-append z xs x)

  pub pop_back-append : (xs : List A) (x : A) → pop_back (xs ++ (x ∷ [])) ≡ some (xs, x)
  unfolding pop_back
  pop_back-append [] x = refl
  pop_back-append (y ∷ xs) x = ap some (split_last-append y xs x)

  drop-suc : (n : ℕ) (xs : List A) → drop (suc n) xs ≡ tail (drop n xs)
  drop-suc zero [] = refl
  drop-suc zero (x ∷ xs) = refl
  drop-suc (suc n) [] = refl
  drop-suc (suc n) (x ∷ xs) = drop-suc n xs

  drop-append : (n : ℕ) (xs ys : List A) → n ≤ length xs → drop n (xs ++ ys) ≡ drop n xs ++ ys
  drop-append zero xs ys h = refl
  drop-append (suc n) [] ys h = absurd (omega arith)
  drop-append (suc n) (x ∷ xs) ys h = drop-append n xs ys (omega arith)

  pub length-drop : (n : ℕ) (xs : List A) → length (drop n xs) ≡ length xs - n
  length-drop zero xs = omega arith
  length-drop (suc n) [] = omega arith
  length-drop (suc n) (x ∷ xs) = omega (arith, length-drop n xs)

  pub length-take : (n : ℕ) (xs : List A) → n ≤ length xs → length (take n xs) ≡ n
  length-take zero xs h = refl
  length-take (suc n) [] h = absurd (omega arith)
  length-take (suc n) (x ∷ xs) h = ap suc (length-take n xs (omega arith))

  length_push : (xs : List A) (x : A) → length (xs ++ (x ∷ [])) ≡ length xs + 1
  length_push xs x = length-append xs (x ∷ [])

  tail-length : (xs : List A) → length (tail xs) ≡ length xs - 1
  tail-length [] = omega arith
  tail-length (x ∷ xs) = omega arith

  -- One push: the size grows by one below the maximum, and stays otherwise.
  pub length-push_bounded :
      (limit : ℕ) (xs : List A) (x : A)
      → length (push_bounded limit xs x)
        ≡ (if ltb (length xs) limit then length xs + 1 else length xs)
  unfolding push_bounded
  length-push_bounded limit xs x =
      let ys = xs ++ (x ∷ []) in ground (arith, length_push xs x, tail-length ys)

  -- With room left, a push only appends.
  pub push_bounded-append :
      (limit : ℕ) (xs : List A) (x : A)
      → length xs < limit
      → push_bounded limit xs x ≡ xs ++ (x ∷ [])
  unfolding push_bounded
  push_bounded-append limit xs x h = ground (arith, length_push xs x)

  -- With none left, the front goes.
  pub push_bounded-tail :
      (limit : ℕ) (xs : List A) (x : A)
      → limit ≤ length xs
      → push_bounded limit xs x ≡ tail (xs ++ (x ∷ []))
  unfolding push_bounded
  push_bounded-tail limit xs x h = ground (arith, length_push xs x)

  push_last_of :
      (limit : ℕ) (xs : List A) (x : A)
      → push_bounded limit (last_of limit xs) x ≡ last_of limit (xs ++ (x ∷ []))
  push_last_of limit xs x = elim (dec_lt (length xs) limit) [
    | yes room ↦
        let e : length xs - limit ≡ 0 = omega arith in
        let f : length (xs ++ (x ∷ [])) - limit ≡ 0 = omega (arith, length_push xs x) in
        rw (e, f) (push_bounded-append limit xs x room)
    | no full ↦
        let k = length xs - limit in
        let f : length (xs ++ (x ∷ [])) - limit ≡ suc k = omega (arith, length_push xs x) in
        rw f (
          push_bounded-tail limit (drop k xs) x (omega (arith, length-drop k xs))
          ∙ ap tail (sym (drop-append k xs (x ∷ []) (omega arith)))
          ∙ sym (drop-suc k (xs ++ (x ∷ []))))
  ]

  push_all-from :
      (limit : ℕ) (xs ys : List A) → push_all limit (last_of limit xs) ys ≡ last_of limit (xs ++ ys)
  unfolding push_all
  push_all-from limit xs [] = rw (append-nil xs)
  push_all-from limit xs (y ∷ ys) =
      rw (push_last_of limit xs y)
        (push_all-from limit (xs ++ (y ∷ [])) ys ∙ ap (last_of limit) (append_assoc xs (y ∷ []) ys))

  -- The queue holds the last `limit` of all elements that went in.
  pub push_all-last_of : (limit : ℕ) (ys : List A) → push_all limit [] ys ≡ last_of limit ys
  push_all-last_of limit ys =
      let e : 0 - limit ≡ 0 = omega arith in
      ap (λ (n : ℕ). push_all limit (drop n []) ys) (sym e) ∙ push_all-from limit [] ys
