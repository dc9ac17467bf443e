-- ===== src/Api/Commands/Page.antt =====
-- frontend/src/lib/api/commands.ts: the order of the journal and its pages.
use stechbaza_iot.Prelude.{
  Bool, List, Option, String, [], false, get_elem?, if◌then◌else◌, leb, length, map, none, some,
  true, ℕ, ◌&&◌, ◌*◌, ◌+◌, ◌-◌, ◌==◌, ◌||◌, ◌∷◌,
}
use stechbaza_iot.Api.Access.Fields.{invalid, require}
use stechbaza_iot.Api.Commands.{Command, CommandCursor, commands_path, parse_command}
use stechbaza_iot.Api.Errors.{Result, ok, traverse, ◌>>=◌, ◌>>◌}
use stechbaza_iot.Api.Inventory.{rows_of}
use stechbaza_iot.Host.{Host}
use stechbaza_iot.Js.Set.{is_distinct}
use stechbaza_iot.Js.Text.{codes, text_lt}
use stechbaza_iot.Js.Value.{Value}
use stechbaza_iot.Prelude.Int.{leb_ℤ, ltb_ℤ, pos, ℤ, ◌*ℤ◌, ◌+ℤ◌}

-- The digits after the first "." that a digit follows.
unfoldable pub leading_digits : List ℕ → List ℕ
leading_digits [] = []
leading_digits (c ∷ s) =
    let rest = leading_digits s in if leb b'0' c && leb c b'9' then c ∷ rest else []

unfoldable pub fraction_of : List ℕ → List ℕ
fraction_of [] = []
fraction_of (c ∷ s) =
    let rest = fraction_of s in
    elim (leading_digits s) [ [] ↦ rest | d ∷ ds ↦ if c == b'.' then d ∷ ds else rest ]

-- The value of digit i, where "0" pads the fraction.
unfoldable pub digit_at : List ℕ → ℕ → ℕ
digit_at s i = elim (get_elem? s i) [ none ↦ 0 | some d ↦ d - b'0' ]

-- Number(fraction.padEnd(6, "0").slice(3, 6))
unfoldable pub microseconds : List ℕ → ℕ
microseconds s = digit_at s 3 * 100 + digit_at s 4 * 10 + digit_at s 5

abbrev pub at_micros : Option ℤ → ℕ → Option ℤ
at_micros none n = none
at_micros (some t) n = some (t *ℤ pos 1000 +ℤ pos n)

abbrev pub before_key : Option ℤ → String → Option ℤ → String → Bool
before_key none a t b = false
before_key (some s) a none b = false
before_key (some s) a (some t) b = ltb_ℤ s t || (leb_ℤ s t && leb_ℤ t s && text_lt a b)

-- commandCursor(command)
unfoldable pub command_cursor : Command → CommandCursor
command_cursor c = record { before_created_at = c.created_at; before_id = c.id }

module _ ⦃h : Host⦄ where
  -- micros(value); `none` is NaN
  unfoldable pub micros : String → Option ℤ
  micros value = at_micros (h.date_parse value) (microseconds (fraction_of (codes value)))

  -- isBefore(command, cursor)
  unfoldable pub is_before : Command → CommandCursor → Bool
  is_before c cursor =
      before_key (micros c.created_at) (h.lower c.id) (micros cursor.before_created_at)
        (h.lower cursor.before_id)

  abbrev pub is_after_boundary : Command → Option CommandCursor → Bool
  is_after_boundary c none = true
  is_after_boundary c (some boundary) = is_before c boundary

  -- commands.forEach((row, index) => …), where the boundary of a row is the row above it
  unfoldable pub check_order : List Command → Option CommandCursor → Result (Unit {0})
  check_order [] boundary = ok tt
  check_order (c ∷ rest) boundary = do
    require (is_after_boundary c boundary) commands_path "ordered cursor page"
    check_order rest (some (command_cursor c))

  unfoldable pub page_of :
      Option (List Value) → String → String → Option CommandCursor → Result (List Command)
  page_of none device_id organization_id cursor = invalid commands_path "bounded command page"
  page_of (some rows) device_id organization_id cursor = do
    require (leb (length rows) 21) commands_path "bounded command page"
    commands ← traverse (λ row. parse_command row device_id organization_id none) rows
    require (is_distinct (map (λ c. c.id) commands)) commands_path "unique commands"
    check_order commands cursor
    ok commands

  unfoldable pub parse_command_page :
      Value → String → String → Option CommandCursor → Result (List Command)
  parse_command_page raw device_id organization_id cursor =
      page_of (rows_of raw) device_id organization_id cursor
