-- ===== src/Media/Text.antt =====
-- What media/RtspConnect.cc uses of the C++ library's strings, streams and maps.
use car_detect.Prelude.{
  ℕ, ◌+◌, ◌-◌, ◌%◌, ◌^◌, Option, none, some, Bool, true, false, ◌&&◌, ◌||◌, List, [], ◌∷◌, Bytes,
  ltb, ◌==◌, if◌then◌else◌, str_eq, min,
}
use car_detect.Rtsp.Text.{is_digit, is_space, skip_spaces, digits_value}

-- A byte at the front of the first line.
abbrev pub onto_line : ℕ → List Bytes → List Bytes
onto_line c [] = (c ∷ []) ∷ []
onto_line c (l ∷ ls) = (c ∷ l) ∷ ls

-- What `std::getline` gives one after the other, until the stream has ended.
unfoldable pub lines : Bytes → List Bytes
lines [] = []
lines (c ∷ s) = let rest = lines s in if c == 10 then [] ∷ rest else onto_line c rest

-- `stream >> word`: the word, and what is behind it.
unfoldable pub word_of : Bytes → Bytes × Bytes
unfolding is_space
word_of [] = ([], [])
word_of (c ∷ s) =
    let (word, rest) = word_of s in if is_space c then ([], c ∷ s) else (c ∷ word, rest)

unfoldable pub next_word : Bytes → Bytes × Bytes
unfolding word_of skip_spaces
next_word s = word_of (skip_spaces s)

-- `find` of one byte: what is before it, and what is behind it.
unfoldable pub cut_at : ℕ → Bytes → Option (Bytes × Bytes)
cut_at c [] = none
cut_at c (a ∷ s) =
    let rest = cut_at c s in
    if a == c
    then some ([], s)
    else elim rest [ none ↦ none | some (before, behind) ↦ some (a ∷ before, behind) ]

-- `erase(0, find_first_not_of(…))`, and `erase(find_last_not_of(…) + 1)`.
unfoldable pub erase_front : (ℕ → Bool) → Bytes → Bytes
erase_front p [] = []
erase_front p (c ∷ s) = let rest = erase_front p s in if p c then rest else c ∷ s

abbrev pub onto_kept : (ℕ → Bool) → ℕ → Bytes → Bytes
onto_kept p c [] = if p c then [] else c ∷ []
onto_kept p c (d ∷ s) = c ∷ d ∷ s

unfoldable pub erase_back : (ℕ → Bool) → Bytes → Bytes
erase_back p [] = []
erase_back p (c ∷ s) = onto_kept p c (erase_back p s)

unfoldable pub strip : (ℕ → Bool) → Bytes → Bytes
unfolding erase_front erase_back
strip p s = erase_back p (erase_front p s)

-- The sets " \t\r\n" and " \t".
abbrev pub is_blank4 : ℕ → Bool
is_blank4 c = c == b' ' || c == 9 || c == 13 || c == 10

abbrev pub is_blank2 : ℕ → Bool
is_blank2 c = c == b' ' || c == 9

-- `std::string`'s order, on bytes below 128.
unfoldable pub less : Bytes → Bytes → Bool
less [] [] = false
less [] (b ∷ bs) = true
less (a ∷ as') [] = false
less (a ∷ as') (b ∷ bs) = ltb a b || (a == b && less as' bs)

-- `std::map<std::string, …>`: the keys stay in order.
module _ {A : Type 0} where
  abbrev pub map_set : Bytes → A → List (Bytes × A) → List (Bytes × A)
  map_set k v [] = (k, v) ∷ []
  map_set k v ((j, w) ∷ m) =
      let rest = map_set k v m in
      if str_eq k j then (k, v) ∷ m else if less k j then (k, v) ∷ (j, w) ∷ m else (j, w) ∷ rest

  abbrev pub map_find : Bytes → List (Bytes × A) → Option A
  map_find k [] = none
  map_find k ((j, w) ∷ m) = let rest = map_find k m in if str_eq k j then some w else rest

  abbrev pub map_erase : Bytes → List (Bytes × A) → List (Bytes × A)
  map_erase k [] = []
  map_erase k ((j, w) ∷ m) = let rest = map_erase k m in if str_eq k j then m else (j, w) ∷ rest

-- `(uint32_t)atoi(s)`: atoi is strtol, a `long` of 64 bits, cut to an `int`.
unfoldable pub signed_u32 : Bytes → ℕ
unfolding digits_value
signed_u32 [] = 0
signed_u32 (c ∷ cs) =
    if c == b'-'
    then (2 ^ 64 - min (digits_value 0 cs) (2 ^ 63)) % 2 ^ 32
    else if c == b'+'
    then min (digits_value 0 cs) (2 ^ 63 - 1) % 2 ^ 32
    else min (digits_value 0 (c ∷ cs)) (2 ^ 63 - 1) % 2 ^ 32

unfoldable pub atoi_u32 : Bytes → ℕ
unfolding signed_u32 skip_spaces
atoi_u32 s = signed_u32 (skip_spaces s)

-- The same, as an `int` that becomes a `size_t`.
unfoldable pub atoi_size : Bytes → ℕ
unfolding atoi_u32
atoi_size s = let n = atoi_u32 s in if ltb n (2 ^ 31) then n else 2 ^ 64 - 2 ^ 32 + n

-- `std::stoul` where a digit has to come first, and what does not fit is an exception.
unfoldable pub stoul_digits : Bytes → Option ℕ
unfolding is_digit digits_value
stoul_digits [] = none
stoul_digits (c ∷ cs) =
    let n = digits_value 0 (c ∷ cs) in
    if is_digit c then (if ltb n (2 ^ 64) then some n else none) else none

abbrev pub negated : Option ℕ → Option ℕ
negated none = none
negated (some n) = some ((2 ^ 64 - n) % 2 ^ 64)

unfoldable pub stoul_signed : Bytes → Option ℕ
unfolding stoul_digits
stoul_signed [] = none
stoul_signed (c ∷ cs) =
    if c == b'-'
    then negated (stoul_digits cs)
    else if c == b'+'
    then stoul_digits cs
    else stoul_digits (c ∷ cs)

-- `std::stoul`: a sign is taken, and a negative number wraps; `none` is an exception.
unfoldable pub stoul : Bytes → Option ℕ
unfolding stoul_signed skip_spaces
stoul s = stoul_signed (skip_spaces s)
