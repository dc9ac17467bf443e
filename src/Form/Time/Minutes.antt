-- ===== src/Form/Time/Minutes.antt =====
-- What frontend/src/lib/time-input.ts reads from a time that is typed.
use stechbaza_iot.Prelude.{
  Bool, Char, Option, String, arith, false, if◌then◌else◌, inl, inr, is_some, ltb, none, not, refl,
  some, subst, true, ℕ, ◌&&◌, ◌*◌, ◌+◌, ◌<◌, ◌||◌, ◌≡◌, ◌≤◌, ◌⊎◌,
}
use stechbaza_iot.Form.Time.{
  Parts, after_hours, clock_of, clock_text, compact, ends, hours, is_char, is_digit, minute_of_day,
  minutes, minutes_of, normalize_time_input, normalized, one_digit, or_else, parts_of,
  time_input_error, two_digits, with_colon,
}
use stechbaza_iot.Js.Text.{is_empty, trim}

clock_of-range :
    (s : String) (hour minute : ℕ) → clock_of s ≡ some (hour, minute) → (hour < 24) × (minute < 60)
unfolding clock_of
clock_of-range (String.◌∷◌ a (String.◌∷◌ b (String.◌∷◌ c (String.◌∷◌ m (String.◌∷◌ n String.[])))))
      hour minute e =
    ground arith
clock_of-range s hour minute e = cc

minutes_of-range :
    (o : Option (ℕ × ℕ)) (t : ℕ)
    → ((hour minute : ℕ) → o ≡ some (hour, minute) → (hour < 24) × (minute < 60))
    → minutes_of o ≡ some t
    → t < 1440
unfolding minutes_of
minutes_of-range none t h e = cc
minutes_of-range (some (hour, minute)) t h e = let (few, less) = h hour minute refl in ground arith

not_none :
    {A : Type 0} (b : Bool) {o : Option A} {x : A} → (if b then none else o) ≡ some x → o ≡ some x
not_none true e = cc
not_none false e = e

-- A time of a day is below 1440 minutes.
pub minute_of_day-lt : (value : String) (t : ℕ) → minute_of_day value ≡ some t → t < 1440
unfolding minute_of_day
minute_of_day-lt value t e =
    let clock = clock_of (normalize_time_input value true) in
    minutes_of-range clock t (clock_of-range (normalize_time_input value true))
      (not_none (is_some (time_input_error value)) e)

-- Each character is a digit.
abbrev pub HasDigits : Parts → Type 0
HasDigits (one_digit b m n) = (is_digit b ≡ true) × (is_digit m ≡ true) × (is_digit n ≡ true)
HasDigits (two_digits a b m n) =
    (is_digit a ≡ true) × (is_digit b ≡ true) × (is_digit m ≡ true) × (is_digit n ≡ true)

clock_of-clock_text :
    (p : Parts)
    → HasDigits p
    → hours p ≤ 23
    → minutes p ≤ 59
    → clock_of (clock_text p) ≡ some (hours p, minutes p)
unfolding clock_of clock_text hours minutes
clock_of-clock_text (one_digit b m n) h few less = ground arith
clock_of-clock_text (two_digits a b m n) h few less = ground arith

only_some :
    {A : Type 0} (b : Bool) {x y : A} → (if b then some x else none) ≡ some y → (b ≡ true) × (x ≡ y)
only_some true e = (refl, cc)
only_some false e = cc

if-branches :
    {A : Type 0} (b : Bool) {x y z : A}
    → (if b then x else y) ≡ z
    → ((b ≡ true) × (x ≡ z)) ⊎ ((b ≡ false) × (y ≡ z))
if-branches true e = inl (refl, e)
if-branches false e = inr (refl, e)

if_none :
    {A : Type 0} (b : Bool) {o : Option A} {x : A}
    → (if b then none else o) ≡ some x
    → (b ≡ false) × (o ≡ some x)
if_none true e = cc
if_none false e = (refl, e)

-- What the patterns match has digits in its groups.
digit_in : (a b c d : Bool) → (a && b && c && d) ≡ true → (b ≡ true) × (c ≡ true)
digit_in a b c d h = ground arith

after_hours-HasDigits :
    (f : Char → Char → Parts) (s : String) (p : Parts)
    → ((m n : Char) → is_digit m ≡ true → is_digit n ≡ true → HasDigits (f m n))
    → after_hours f s ≡ some p
    → HasDigits p
unfolding after_hours
after_hours-HasDigits f (String.◌∷◌ c (String.◌∷◌ m (String.◌∷◌ n rest))) p h e =
    let (matched, same) = only_some (is_char c b':' && is_digit m && is_digit n && ends rest) e in
    subst HasDigits same (
      h m n (digit_in (is_char c b':') (is_digit m) (is_digit n) (ends rest) matched).0
        (digit_in (is_char c b':') (is_digit m) (is_digit n) (ends rest) matched).1)
after_hours-HasDigits f s p h e = cc

with_colon-HasDigits : (s : String) (p : Parts) → with_colon s ≡ some p → HasDigits p
unfolding with_colon
with_colon-HasDigits (String.◌∷◌ a (String.◌∷◌ b rest)) p e =
    let (first, e) = if_none (not (is_digit a)) e in
    elim (if-branches (is_digit b) e) [
      | inl (second, e) ↦
          after_hours-HasDigits (two_digits a b) rest p (λ m n h k. (ground arith, second, h, k)) e
      | inr (second, e) ↦
          after_hours-HasDigits (one_digit a) (String.◌∷◌ b rest) p
            (λ m n h k. (ground arith, h, k)) e
    ]
with_colon-HasDigits s p e = cc

compact-HasDigits :
    (complete : Bool) (s : String) (p : Parts) → compact complete s ≡ some p → HasDigits p
unfolding compact
compact-HasDigits complete (String.◌∷◌ a (String.◌∷◌ b (String.◌∷◌ c String.[]))) p e =
    let (matched, same) = only_some (complete && is_digit a && is_digit b && is_digit c) e in
    subst HasDigits same (ground arith)
compact-HasDigits complete (String.◌∷◌ a (String.◌∷◌ b (String.◌∷◌ c (String.◌∷◌ d String.[])))) p
      e =
    let (matched, same) = only_some (is_digit a && is_digit b && is_digit c && is_digit d) e in
    subst HasDigits same (ground arith)
compact-HasDigits complete s p e = cc

or_else-HasDigits :
    (o q : Option Parts) (p : Parts)
    → ((r : Parts) → o ≡ some r → HasDigits r)
    → ((r : Parts) → q ≡ some r → HasDigits r)
    → or_else o q ≡ some p
    → HasDigits p
unfolding or_else
or_else-HasDigits none q p h k e = k p e
or_else-HasDigits (some r) q p h k e = h p e

normalize_time_input-clock :
    (value : String) (p : Parts)
    → parts_of value true ≡ some p
    → hours p ≤ 23
    → minutes p ≤ 59
    → clock_of (normalize_time_input value true) ≡ some (hours p, minutes p)
unfolding normalize_time_input normalized parts_of
normalize_time_input-clock value p e few less =
    let digits =
      or_else-HasDigits (with_colon (trim value)) (compact true (trim value)) p
        (with_colon-HasDigits (trim value)) (compact-HasDigits true (trim value)) e in
    let fits : (ltb 23 (hours p) || ltb 59 (minutes p)) ≡ false = ground arith in
    rw (e, fits) (clock_of-clock_text p digits few less)

parts_of-full : (value : String) (p : Parts) → parts_of value true ≡ some p → is_empty value ≡ false
unfolding parts_of trim or_else with_colon compact
parts_of-full String.[] p e = cc
parts_of-full (String.◌∷◌ c s) p e = refl

-- A time that is typed as hours and minutes in range, with a colon or without, is the minute of the
-- day that it says.
pub minute_of_day-parts :
    (value : String) (p : Parts)
    → parts_of value true ≡ some p
    → hours p ≤ 23
    → minutes p ≤ 59
    → minute_of_day value ≡ some (hours p * 60 + minutes p)
unfolding minute_of_day time_input_error minutes_of
minute_of_day-parts value p e few less =
    rw (parts_of-full value p e, normalize_time_input-clock value p e few less)
