-- ===== src/Api/Errors/Message.antt =====
-- frontend/src/lib/api/errors.ts: the text that a customer sees for an error.
use Prim.Native.String
use stechbaza_iot.Prelude.{
  ℕ, Bool, true, false, ◌&&◌, ◌||◌, String, Char, code, List, [], ◌∷◌, ◌++◌, Option, none, some,
  any, leb, ◌==◌, if◌then◌else◌,
}
use stechbaza_iot.Js.Text.{codes, is_space, is_empty, trim}
use stechbaza_iot.Js.Value.{Value, null, str, arr, obj, undefined, elements, get}
use stechbaza_iot.Api.Errors.{
  ErrorKind, server, network, timeout, aborted, invalid_response, ApiError, Failure, api_error,
  error,
}

-- /[А-Яа-яІіЇїЄєҐґ]/u
is_cyrillic : ℕ → Bool
is_cyrillic c =
    (leb 0x410 c && leb c 0x44f)
    || c == 0x406
    || c == 0x456
    || c == 0x407
    || c == 0x457
    || c == 0x404
    || c == 0x454
    || c == 0x490
    || c == 0x491

-- [—–]
abbrev is_dash : ℕ → Bool
is_dash c = c == 0x2014 || c == 0x2013

infixr 65 ◌<>◌
abbrev ◌<>◌ : String → String → String
s <> t = String.◌++◌ s t

abbrev single : Char → String
single c = String.◌∷◌ c String.[]

-- Where the scan for /\s+[—–]\s+/g stands: outside a match, after `\s+`, after the dash, and in the
-- last `\s+` of a match. What is held is copied if the match fails.
pub data Scan : Type 0 where
  plain skipping : Scan
  spaces : String → Scan
  dashed : String → Scan

replace_dashes : Scan → String → String
replace_dashes plain String.[] = ""
replace_dashes skipping String.[] = ""
replace_dashes (spaces held) String.[] = held
replace_dashes (dashed held) String.[] = held
replace_dashes plain (String.◌∷◌ c s) =
    let hold = replace_dashes (spaces (single c)) s in
    let copy = single c <> replace_dashes plain s in if is_space (code c) then hold else copy
replace_dashes skipping (String.◌∷◌ c s) =
    let skip = replace_dashes skipping s in
    let copy = single c <> replace_dashes plain s in if is_space (code c) then skip else copy
replace_dashes (spaces held) (String.◌∷◌ c s) =
    let hold = replace_dashes (spaces (held <> single c)) s in
    let dash = replace_dashes (dashed (held <> single c)) s in
    let copy = held <> single c <> replace_dashes plain s in
    if is_space (code c) then hold else if is_dash (code c) then dash else copy
replace_dashes (dashed held) (String.◌∷◌ c s) =
    let matched = ", " <> replace_dashes skipping s in
    let copy = held <> single c <> replace_dashes plain s in
    if is_space (code c) then matched else copy

-- replace(/[—–]/gu, "-")
plain_dashes : String → String
plain_dashes String.[] = ""
plain_dashes (String.◌∷◌ c s) = (if is_dash (code c) then "-" else single c) <> plain_dashes s

abbrev non_empty : String → Option String
non_empty s = if is_empty s then none else some s

unfoldable pub read_string : Value → Option String
unfolding is_cyrillic replace_dashes plain_dashes
read_string (str s) =
    if any is_cyrillic (codes s)
    then non_empty (plain_dashes (replace_dashes plain (trim s)))
    else none
read_string v = none

-- Reflect.get(value, key), where `value` is an object or an array and `key` is not `length`.
abbrev pub reflect_get : Value → String → Value
reflect_get (obj fields) key = get fields key
reflect_get v key = undefined

-- `value && typeof value === "object"`
abbrev pub is_object : Value → Bool
is_object (obj fields) = true
is_object (arr xs) = true
is_object v = false

drop_spaces : String → String
drop_spaces String.[] = ""
drop_spaces (String.◌∷◌ c s) =
    let rest = drop_spaces s in if is_space (code c) then rest else String.◌∷◌ c s

-- The rest of a text that starts with the code points.
abbrev after_prefix : List ℕ → String → Option String
after_prefix [] s = some s
after_prefix (p ∷ ps) String.[] = none
after_prefix (p ∷ ps) (String.◌∷◌ c s) =
    let rest = after_prefix ps s in if code c == p then rest else none

-- replace(/^Value error,\s*/u, "")
strip_value_error : String → String
unfolding drop_spaces
strip_value_error s = elim (after_prefix (codes "Value error,") s) [
  | none ↦ s
  | some rest ↦ drop_spaces rest
]

abbrev one_message : Value → List String
one_message item = elim (read_string (reflect_get item "msg")) [
  | none ↦ []
  | some message ↦ strip_value_error message ∷ []
]

messages_of : List Value → List String
unfolding strip_value_error
messages_of [] = []
messages_of (item ∷ rest) = (if is_object item then one_message item else []) ++ messages_of rest

read_validation_messages : Value → List String
unfolding messages_of
read_validation_messages (arr xs) = messages_of (elements xs)
read_validation_messages v = []

-- messages.join(" ")
join_words : List String → String
join_words [] = ""
join_words (m ∷ []) = m
join_words (m ∷ n ∷ r) = m <> " " <> join_words (n ∷ r)

-- The text for a status, where the answer has none of its own.
unfoldable pub status_message : ℕ → String
status_message status =
    if status == 401
    then "Сесію не підтверджено або вона завершилася."
    else if status == 403
    then "Недостатньо прав для цієї дії."
    else if status == 404
    then "Дані не знайдено або доступ до них закрито."
    else if status == 409
    then "Дані змінилися. Оновіть сторінку та перевірте їх перед повторною спробою."
    else if status == 422
    then "Перевірте заповнені поля та спробуйте ще раз."
    else if status == 429
    then "Забагато запитів. Зачекайте перед повтором."
    else "Не вдалося виконати дію. Спробуйте ще раз."

abbrev first_of_two : Option String → Option String → Option String
first_of_two (some a) b = some a
first_of_two none b = b

abbrev joined : List String → Option String
joined [] = none
joined (m ∷ r) = some (join_words (m ∷ r))

detail_message : Value → Value → Option String
unfolding read_validation_messages join_words
detail_message payload detail = first_of_two (read_string detail) (
    first_of_two (joined (read_validation_messages detail)) (
      first_of_two (if is_object detail then read_string (reflect_get detail "message") else none)
        (read_string (reflect_get payload "message"))))

-- The text that the answer itself carries: `detail`, its validation messages, its message, then
-- the message of the answer.
payload_message : Value → Option String
unfolding detail_message
payload_message payload =
    if is_object payload then detail_message payload (reflect_get payload "detail") else none

abbrev server_message : String
server_message = "Сервіс тимчасово недоступний. Спробуйте пізніше."

unfoldable pub problem_message : Value → ℕ → String
unfolding payload_message
problem_message payload status =
    if leb 500 status
    then server_message
    else elim (payload_message payload) [ some text ↦ text | none ↦ status_message status ]

abbrev own_message : ApiError → String
own_message e = elim (read_string (str e.message)) [
  | some text ↦ text
  | none ↦ problem_message null (elim e.status [ some s ↦ s | none ↦ 0 ])
]

display_kind : ErrorKind → ApiError → String
display_kind network e =
    "Не вдалося підключитися. Перевірте з’єднання з інтернетом і спробуйте ще раз."
display_kind timeout e = "Сервіс не відповів вчасно. Спробуйте ще раз."
display_kind aborted e = "Дію скасовано."
display_kind server e = server_message
display_kind invalid_response e =
    "Не вдалося перевірити отримані дані. Оновіть сторінку або спробуйте пізніше."
display_kind _ e = own_message e

unfoldable pub api_error_display_message : Failure → String
unfolding display_kind
api_error_display_message (error message) = "Не вдалося виконати дію. Спробуйте ще раз."
api_error_display_message (api_error e) = display_kind e.kind e
